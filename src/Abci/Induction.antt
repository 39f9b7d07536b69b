-- ===== src/Abci/Induction.antt =====
-- abci/utils.go: induction on the chain of `ChainPrepareLanes`.
use block_sdk.Prelude.{◌≡◌, inl, inr, refl, ap, ◌∙◌, subst, List, [], ◌∷◌, ok}
use block_sdk.Proposals.{Proposal}
use block_sdk.Base.{Env}
use block_sdk.Base.Lane.{
  finished, BaseLane, Lane, base, terminator, World, Prepared, Reaped, add_to_proposal,
}
use block_sdk.Abci.{run_prepare}
use block_sdk.Abci.Chain.{
  IsTerminated, IsFailure, AllLanes, Reaps, LaneRun, gave_up, added, prepare_lane-LaneRun, prepared,
  skipped, Settles, run_prepare-Settles,
}

module _ {Ctx LegacyDec M : Type 0} (env : Env Ctx LegacyDec M) where
  module _ (lane : BaseLane Ctx LegacyDec M) (lanes : List (Lane Ctx LegacyDec M)) (w : World Ctx M)
      (p : Proposal) where
    -- The chain after the lane runs on the proposal that the lane has added to, or on the same one.
    pub data ChainRun (r : Prepared Ctx M) : Type 0 where
      passed :
          (reaped : Reaped Ctx) (pool : M) (w' : World Ctx M) (p' : Proposal)
          → Reaps env lane w p reaped
          → add_to_proposal env lane pool reaped.to_include p ≡ ok p'
          → w'.ctx ≡ reaped.ctx
          → r ≡ run_prepare env lanes w' p'
          → ChainRun r
      passed_over :
          IsFailure (prepared env lane lanes w p).outcome
          → r ≡ run_prepare env lanes (skipped env w (prepared env lane lanes w p)) p
          → ChainRun r

    module _ (h : IsTerminated lanes)
        (total : (w' : World Ctx M) (p' : Proposal)
          → (q : Proposal) × ((run_prepare env lanes w' p').outcome ≡ finished q)) where
      not-IsFailure :
          (w' : World Ctx M) (p' : Proposal) → ¬ IsFailure (run_prepare env lanes w' p').outcome
      not-IsFailure w' p' failure = let (q, e) = total w' p' in subst IsFailure e failure

      pub run_prepare-ChainRun : ChainRun (run_prepare env (base lane ∷ lanes) w p)
      run_prepare-ChainRun =
          by_run (prepare_lane-LaneRun env lane (run_prepare env lanes) p w)
            (run_prepare-Settles env lane lanes w p h)
        where
          by_run :
              LaneRun env lane (run_prepare env lanes) p w (prepared env lane lanes w p)
              → Settles env lane lanes w p
              → ChainRun (run_prepare env (base lane ∷ lanes) w p)
          by_run (gave_up failure maps) (inl (q, e, same)) = absurd (subst IsFailure e failure)
          by_run (gave_up failure maps) (inr (_, skip)) = passed_over failure (skip maps)
          by_run (added reaped pool w' p' reaps e ctx same') (inl (q, _, same)) =
              passed reaped pool w' p' reaps e ctx (same ∙ same')
          by_run (added reaped pool w' p' reaps e ctx same') (inr (failure, _)) = absurd (
              not-IsFailure w' p'
                (subst (λ (r : Prepared Ctx M). IsFailure r.outcome) same' failure))

  -- A chain that ends with the terminator always returns a proposal, whatever its lanes do.
  pub run_prepare-finished :
      (lanes : List (Lane Ctx LegacyDec M)) (w : World Ctx M) (p : Proposal)
      → IsTerminated lanes
      → (q : Proposal) × ((run_prepare env lanes w p).outcome ≡ finished q)
  run_prepare-finished [] w p h = absurd h
  run_prepare-finished (terminator ∷ lanes) w p h = (p, unfold run_prepare in refl)
  run_prepare-finished (base lane ∷ lanes) w p h =
      by_run (run_prepare-ChainRun lane lanes w p h (λ w' p'. run_prepare-finished lanes w' p' h))
        (λ w' p'. run_prepare-finished lanes w' p' h)
    where
      by_run :
          {r : Prepared Ctx M}
          → ChainRun lane lanes w p r
          → ((w' : World Ctx M) (p' : Proposal)
              → (q : Proposal) × ((run_prepare env lanes w' p').outcome ≡ finished q))
          → (q : Proposal) × (r.outcome ≡ finished q)
      by_run (passed _ _ w' p' _ _ _ e) total =
          let (q, done) = total w' p' in (q, ap (λ (r : Prepared Ctx M). r.outcome) e ∙ done)
      by_run (passed_over _ e) total =
          let (q, done) = total (skipped env w (prepared env lane lanes w p)) p in
          (q, ap (λ (r : Prepared Ctx M). r.outcome) e ∙ done)

  module _ (lane : BaseLane Ctx LegacyDec M) (lanes : List (Lane Ctx LegacyDec M)) (w : World Ctx M)
      (p : Proposal) where
    -- A lane whose `PrepareLane` returns an error or panics, at the head of a chain that ends with
    -- the terminator, is skipped: the rest of the chain runs on the context and on the very proposal
    -- from before the call, its shared maps included. Only what the lane removed from its mempool
    -- stays removed.
    pub run_prepare_skip :
        IsTerminated lanes
        → IsFailure (prepared env lane lanes w p).outcome
        → run_prepare env (base lane ∷ lanes) w p
          ≡ run_prepare env lanes (skipped env w (prepared env lane lanes w p)) p
    run_prepare_skip h failure =
        by_run (prepare_lane-LaneRun env lane (run_prepare env lanes) p w)
          (run_prepare-Settles env lane lanes w p h)
      where
        by_run :
            LaneRun env lane (run_prepare env lanes) p w (prepared env lane lanes w p)
            → Settles env lane lanes w p
            → run_prepare env (base lane ∷ lanes) w p
              ≡ run_prepare env lanes (skipped env w (prepared env lane lanes w p)) p
        by_run (gave_up _ maps) (inl (q, e, same)) = absurd (subst IsFailure e failure)
        by_run (gave_up _ maps) (inr (_, skip)) = skip maps
        by_run (added reaped pool w' p' reaps e ctx same) _ =
            let (q, done) = run_prepare-finished lanes w' p' h in
            absurd (subst IsFailure (ap (λ (r : Prepared Ctx M). r.outcome) same ∙ done) failure)

  module _ (Good : BaseLane Ctx LegacyDec M → Type 0) (I : Proposal → Type 0)
      (keep : (lane : BaseLane Ctx LegacyDec M) (w : World Ctx M) (reaped : Reaped Ctx) (pool : M)
          (p p' : Proposal)
        → Good lane
        → Reaps env lane w p reaped
        → add_to_proposal env lane pool reaped.to_include p ≡ ok p'
        → I p
        → I p') where
    -- What good lanes keep holds of the proposal that a chain of them returns.
    pub run_prepare_inv :
        (lanes : List (Lane Ctx LegacyDec M)) (w : World Ctx M) (p : Proposal)
        → IsTerminated lanes
        → AllLanes Good lanes
        → I p
        → (q : Proposal) × ((run_prepare env lanes w p).outcome ≡ finished q) × I q
    run_prepare_inv [] w p h good i = absurd h
    run_prepare_inv (terminator ∷ lanes) w p h good i = (p, unfold run_prepare in refl, i)
    run_prepare_inv (base lane ∷ lanes) w p h good i =
        by_run (run_prepare-ChainRun lane lanes w p h (λ w' p'. run_prepare-finished lanes w' p' h))
          (λ w' p' i'. run_prepare_inv lanes w' p' h good.1 i')
      where
        by_run :
            {r : Prepared Ctx M}
            → ChainRun lane lanes w p r
            → ((w' : World Ctx M) (p' : Proposal)
                → I p'
                → (q : Proposal) × ((run_prepare env lanes w' p').outcome ≡ finished q) × I q)
            → (q : Proposal) × (r.outcome ≡ finished q) × I q
        by_run (passed reaped pool w' p' reaps e ctx same) rest =
            let (q, done, kept) = rest w' p' (keep lane w reaped pool p p' good.0 reaps e i) in
            (q, ap (λ (r : Prepared Ctx M). r.outcome) same ∙ done, kept)
        by_run (passed_over _ e) rest =
            let (q, done, kept) = rest (skipped env w (prepared env lane lanes w p)) p i in
            (q, ap (λ (r : Prepared Ctx M). r.outcome) e ∙ done, kept)

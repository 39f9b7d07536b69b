-- ===== src/Abci/Chain.antt =====
-- abci/utils.go: what `ChainPrepareLanes` makes of a lane that succeeds, fails or panics.
use block_sdk.Prelude.{
  leb, false, ℕ, ◌≡◌, ◌⊎◌, inl, inr, refl, ap, ◌∙◌, List, [], ◌∷◌, length, Result, ok, err, arith,
}
use block_sdk.Proposals.{Proposal, get_lane_limits}
use block_sdk.Base.{Env}
use block_sdk.Base.Lane.{
  Failure, Outcome, finished, failed, panicked, BaseLane, Lane, base, terminator, World, Prepared,
  Reaped, Maps, maps_of, with_maps, PrepareLanesHandler, core_of, add_to_proposal, prepare_lane,
  finish_prepare, hand_on,
}
use block_sdk.Abci.{skip_lane, recover_by, recover_lane, run_prepare}

pub Outcome-cases :
    {A : Type 0} (o : Outcome A)
    → ((a : A) × (o ≡ finished a)) ⊎ ((e : Failure) × (o ≡ failed e)) ⊎ (o ≡ panicked)
Outcome-cases (finished a) = inl (a, refl)
Outcome-cases (failed e) = inr (inl (e, refl))
Outcome-cases panicked = inr (inr refl)

-- The outcome of a call that did not succeed.
abbrev pub IsFailure : {A : Type 0} → Outcome A → Type 0
IsFailure (finished a) = ⊥
IsFailure _ = Unit

-- A chain as `ChainPrepareLanes` builds it: not empty, with the terminator at the end.
abbrev pub IsTerminated : {Ctx LegacyDec M : Type 0} → List (Lane Ctx LegacyDec M) → Type 0
IsTerminated [] = ⊥
IsTerminated (terminator ∷ lanes) = Unit
IsTerminated (base lane ∷ lanes) = IsTerminated lanes

module _ {Ctx LegacyDec M : Type 0} where
  -- Every lane of the chain has the property.
  abbrev pub AllLanes : (BaseLane Ctx LegacyDec M → Type 0) → List (Lane Ctx LegacyDec M) → Type 0
  AllLanes Good [] = Unit
  AllLanes Good (terminator ∷ lanes) = AllLanes Good lanes
  AllLanes Good (base lane ∷ lanes) = Good lane × AllLanes Good lanes

module _ {Ctx LegacyDec M : Type 0} (env : Env Ctx LegacyDec M) where
  -- The results of the handler of a lane.
  abbrev pub Reaps : BaseLane Ctx LegacyDec M → World Ctx M → Proposal → Reaped Ctx → Type 0
  Reaps lane w p reaped =
      lane.prepare_lane_handler (core_of lane (w.pools lane.lane_name)) w.ctx p
        (get_lane_limits env.ops p lane.cfg.max_block_space)
      ≡ finished reaped

  -- A lane adds its transactions to the proposal and calls the next handler, and its outcome is that
  -- of the handler; or it fails with the maps as they were.
  pub data LaneRun (lane : BaseLane Ctx LegacyDec M) (next : PrepareLanesHandler Ctx M)
      (p : Proposal) (w : World Ctx M) (r : Prepared Ctx M) : Type 0 where
    gave_up : IsFailure r.outcome → r.maps ≡ maps_of p → LaneRun lane next p w r
    added :
        (reaped : Reaped Ctx) (pool : M) (w' : World Ctx M) (p' : Proposal)
        → Reaps lane w p reaped
        → add_to_proposal env lane pool reaped.to_include p ≡ ok p'
        → w'.ctx ≡ reaped.ctx
        → r ≡ next w' p'
        → LaneRun lane next p w r

  module _ (lane : BaseLane Ctx LegacyDec M) (next : PrepareLanesHandler Ctx M) (p : Proposal) where
    hand_on-LaneRun :
        (w : World Ctx M) (reaped : Reaped Ctx) (pool : M) (w' : World Ctx M)
        (x : Result Failure Proposal)
        → Reaps lane w p reaped
        → add_to_proposal env lane pool reaped.to_include p ≡ x
        → w'.ctx ≡ reaped.ctx
        → LaneRun lane next p w (hand_on env next w' p x)
    unfolding hand_on
    hand_on-LaneRun w reaped pool w' (err e) reaps h same = gave_up tt refl
    hand_on-LaneRun w reaped pool w' (ok p') reaps h same =
        added reaped pool w' p' reaps h same refl

    finish_prepare-LaneRun :
        (w : World Ctx M) (x : Outcome (Reaped Ctx))
        → lane.prepare_lane_handler
            (core_of lane (w.pools lane.lane_name))
            w.ctx
            p
            (get_lane_limits env.ops p lane.cfg.max_block_space)
          ≡ x
        → LaneRun lane next p w (finish_prepare env lane next w p x)
    unfolding finish_prepare
    finish_prepare-LaneRun w panicked h = gave_up tt refl
    finish_prepare-LaneRun w (failed e) h = gave_up tt refl
    finish_prepare-LaneRun w (finished reaped) h = hand_on-LaneRun w reaped _ _ _ h refl refl

    pub prepare_lane-LaneRun :
        (w : World Ctx M) → LaneRun lane next p w (prepare_lane env lane next w p)
    unfolding prepare_lane
    prepare_lane-LaneRun w = finish_prepare-LaneRun w _ refl

  -- the state that a skipped lane leaves
  abbrev pub skipped : World Ctx M → Prepared Ctx M → World Ctx M
  skipped w r = record { ctx = w.ctx; pools = r.world.pools }

  -- Where a lane gives up, the chain goes on as if it were not there.
  skip_lane-run_prepare :
      (lanes : List (Lane Ctx LegacyDec M)) (w : World Ctx M) (p : Proposal) (r : Prepared Ctx M)
      → IsTerminated lanes
      → r.maps ≡ maps_of p
      → skip_lane env (length lanes) (run_prepare env lanes) w p r
        ≡ run_prepare env lanes (skipped w r) p
  unfolding run_prepare skip_lane
  skip_lane-run_prepare [] w p r h e = absurd h
  skip_lane-run_prepare (terminator ∷ []) w p r h e =
      ap
        (λ (m : Maps). record { outcome = finished (with_maps p m); maps = m; world = skipped w r })
        e
  skip_lane-run_prepare (base lane ∷ []) w p r h e = absurd h
  skip_lane-run_prepare (lane ∷ l ∷ lanes) w p r h e =
      let long : leb (length (lane ∷ l ∷ lanes)) 1 ≡ false = ground arith in
      rw (long, skip_lane)
        (ap (λ (m : Maps). run_prepare env (lane ∷ l ∷ lanes) (skipped w r) (with_maps p m)) e)

  recover_by_cases :
      (o : Outcome Proposal) (n : ℕ) (next : PrepareLanesHandler Ctx M) (w : World Ctx M)
      (p : Proposal) (r : Prepared Ctx M)
      → ((q : Proposal) × (o ≡ finished q) × (recover_by env o n next w p r ≡ r))
        ⊎ (IsFailure o × (recover_by env o n next w p r ≡ skip_lane env n next w p r))
  unfolding recover_by
  recover_by_cases (finished q) n next w p r = inl (q, refl, refl)
  recover_by_cases (failed e) n next w p r = inr (tt, refl)
  recover_by_cases panicked n next w p r = inr (tt, refl)

  module _ (lane : BaseLane Ctx LegacyDec M) (lanes : List (Lane Ctx LegacyDec M)) (w : World Ctx M)
      (p : Proposal) where
    abbrev pub prepared : Prepared Ctx M
    prepared = prepare_lane env lane (run_prepare env lanes) w p

    -- A lane succeeds and the chain with it, or it gives up and is skipped.
    abbrev pub Settles : Type 0
    Settles =
        ((q : Proposal) × (prepared.outcome ≡ finished q)
          × (run_prepare env (base lane ∷ lanes) w p ≡ prepared))
        ⊎ (IsFailure prepared.outcome
            × (prepared.maps ≡ maps_of p
                → run_prepare env (base lane ∷ lanes) w p
                  ≡ run_prepare env lanes (skipped w prepared) p))

    pub run_prepare-Settles : IsTerminated lanes → Settles
    unfolding run_prepare recover_lane
    run_prepare-Settles h =
        elim (recover_by_cases prepared.outcome (length lanes) (run_prepare env lanes) w p
          prepared) [
            | inl settled ↦ inl settled
            | inr (failure, e) ↦
                inr (failure, λ maps. e ∙ skip_lane-run_prepare lanes w p prepared h maps)
          ]

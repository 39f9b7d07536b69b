-- ===== src/Abci/Coherent.antt =====
-- abci/utils.go: what `ChainPrepareLanes` builds is accepted by `ChainProcessLanes`, for lanes that
-- keep a contract.
use block_sdk.Prelude.{
  ◌≡◌, ◌⊎◌, inl, inr, refl, sym, ap, ◌∙◌, subst, String, false, List, [], ◌∷◌, ◌++◌, All,
  All-append, Result, ok, ok-injective,
}
use block_sdk.Proposals.{Bytes, Proposal, LaneLimits}
use block_sdk.Proposals.Update.{update_proposal}
use block_sdk.Sdk.{Tx}
use block_sdk.Base.{Env, get_tx_infos}
use block_sdk.Base.Lane.{
  finished, BaseLane, Lane, base, terminator, World, Prepared, Reaped, ProcessLanesHandler, core_of,
  add_to_proposal, process_lane, finish_process, pass_on,
}
use block_sdk.Abci.{terminated, run_prepare, run_process}
use block_sdk.Abci.Chain.{IsTerminated, AllLanes, Reaps, prepared, skipped}
use block_sdk.Abci.Induction.{
  ChainRun, passed, passed_over, run_prepare-ChainRun, run_prepare-finished,
}
use block_sdk.Abci.Process.{IsSplitting}

-- In no context does the transaction match the lane.
abbrev pub IsStranger : {Ctx LegacyDec M : Type 0} → BaseLane Ctx LegacyDec M → Tx → Type 0
IsStranger {Ctx} lane tx = (c : Ctx) → lane.match_handler c tx ≡ false

module _ {Ctx LegacyDec M : Type 0} (env : Env Ctx LegacyDec M) where
  -- The results of the handler of a lane, for any mempool, context, proposal and limits.
  abbrev pub Prepares :
      BaseLane Ctx LegacyDec M → M → Ctx → Proposal → LaneLimits → Reaped Ctx → Type 0
  Prepares lane pool c p limit reaped =
      lane.prepare_lane_handler (core_of lane pool) c p limit ≡ finished reaped

  add_to_proposal_none :
      (lane : BaseLane Ctx LegacyDec M) (pool : M) (p : Proposal)
      → add_to_proposal env lane pool [] p ≡ ok p
  unfolding add_to_proposal get_tx_infos update_proposal
  add_to_proposal_none lane pool p = refl

  -- A lane whose handler splits the transactions at a place adds those before it and calls the next
  -- lane with the others.
  process_lane_split :
      (lane : BaseLane Ctx LegacyDec M) (pool : M) (next : ProcessLanesHandler Ctx) (c c' : Ctx)
      (p p' : Proposal) (own rest : List Tx)
      → lane.process_lane_handler (core_of lane pool) c (own ++ rest)
        ≡ finished (record { from_lane = own; remaining = rest; ctx = c' })
      → (own ≡ [] → c' ≡ c)
      → add_to_proposal env lane pool own p ≡ ok p'
      → process_lane env lane pool next c p (own ++ rest) ≡ next c' p' rest
  unfolding process_lane finish_process pass_on
  process_lane_split lane pool next c c' p p' [] [] handled idle added =
      let same = ok-injective p p' (sym (add_to_proposal_none lane pool p) ∙ added) in
      ap (λ q. next c q []) same ∙ ap (λ d. next d p' []) (sym (idle refl))
  process_lane_split lane pool next c c' p p' [] (tx ∷ rest) handled idle added =
      rw (handled, finish_process, added)
  process_lane_split lane pool next c c' p p' (tx ∷ own) rest handled idle added =
      rw (handled, finish_process, added)

  module _ (Owns : BaseLane Ctx LegacyDec M → Tx → Type 0) (encode : Tx → Result String Bytes) where
    -- What a lane promises to the chain: it includes only transactions that it owns; if it includes
    -- none it leaves the context; its `ProcessLaneHandler` accepts what its `PrepareLaneHandler`
    -- includes, with the same context and whatever both mempools hold, before transactions that do
    -- not match the lane; and it passes such transactions on.
    pub record IsCoherent (lane : BaseLane Ctx LegacyDec M) : Type 0 where
      pub splitting : IsSplitting env encode lane
      pub owned :
          (pool : M) (c : Ctx) (p : Proposal) (limit : LaneLimits) (reaped : Reaped Ctx)
          → Prepares lane pool c p limit reaped
          → All (Owns lane) reaped.to_include
      pub idle :
          (pool : M) (c : Ctx) (p : Proposal) (limit : LaneLimits) (reaped : Reaped Ctx)
          → Prepares lane pool c p limit reaped
          → reaped.to_include ≡ []
          → reaped.ctx ≡ c
      pub accepts :
          (pool other : M) (c : Ctx) (p : Proposal) (limit : LaneLimits) (reaped : Reaped Ctx)
          (rest : List Tx)
          → Prepares lane pool c p limit reaped
          → All (IsStranger lane) rest
          → lane.process_lane_handler (core_of lane other) c (reaped.to_include ++ rest)
            ≡ finished
                (record { from_lane = reaped.to_include; remaining = rest; ctx = reaped.ctx })
      pub passes :
          (other : M) (c : Ctx) (rest : List Tx)
          → All (IsStranger lane) rest
          → lane.process_lane_handler (core_of lane other) c rest
            ≡ finished (record { from_lane = []; remaining = rest; ctx = c })

    -- One of the lanes owns the transaction.
    abbrev pub OwnedBy : List (Lane Ctx LegacyDec M) → Tx → Type 0
    OwnedBy [] tx = ⊥
    OwnedBy (terminator ∷ lanes) tx = ⊥
    OwnedBy (base lane ∷ lanes) tx = Owns lane tx ⊎ OwnedBy lanes tx

    -- What a later lane owns does not match an earlier one.
    abbrev pub AreApart : List (Lane Ctx LegacyDec M) → Type 0
    AreApart [] = Unit
    AreApart (terminator ∷ lanes) = Unit
    AreApart (base lane ∷ lanes) =
        ((tx : Tx) → OwnedBy lanes tx → IsStranger lane tx) × AreApart lanes

    strangers :
        (lane : BaseLane Ctx LegacyDec M) (lanes : List (Lane Ctx LegacyDec M)) (txs : List Tx)
        → ((tx : Tx) → OwnedBy lanes tx → IsStranger lane tx)
        → All (OwnedBy lanes) txs
        → All (IsStranger lane) txs
    strangers lane lanes [] apart owned = tt
    strangers lane lanes (tx ∷ txs) apart owned =
        (apart tx owned.0, strangers lane lanes txs apart owned.1)

    mine :
        (lane : BaseLane Ctx LegacyDec M) (lanes : List (Lane Ctx LegacyDec M)) (txs : List Tx)
        → All (Owns lane) txs
        → All (OwnedBy (base lane ∷ lanes)) txs
    mine lane lanes [] owned = tt
    mine lane lanes (tx ∷ txs) owned = (inl owned.0, mine lane lanes txs owned.1)

    others :
        (lane : BaseLane Ctx LegacyDec M) (lanes : List (Lane Ctx LegacyDec M)) (txs : List Tx)
        → All (OwnedBy lanes) txs
        → All (OwnedBy (base lane ∷ lanes)) txs
    others lane lanes [] owned = tt
    others lane lanes (tx ∷ txs) owned = (inr owned.0, others lane lanes txs owned.1)

    -- The proposal that is verified need not be the one that is built: it may have more room.
    module _ (IsRoomy : BaseLane Ctx LegacyDec M → Type 0)
        (HasRoomOf : Proposal → Proposal → Type 0)
        (room : (lane : BaseLane Ctx LegacyDec M) (w : World Ctx M) (reaped : Reaped Ctx) (pool : M)
            (p p' roomier : Proposal)
          → IsRoomy lane
          → HasRoomOf p roomier
          → Reaps env lane w p reaped
          → add_to_proposal env lane pool reaped.to_include p ≡ ok p'
          → (roomier' : Proposal) × ((other : M)
              → add_to_proposal env lane other reaped.to_include roomier ≡ ok roomier')
            × HasRoomOf p' roomier') where
      -- The chain built `q` by including `txs`, and from the roomier proposal it accepts `txs`.
      pub record Replays (lanes : List (Lane Ctx LegacyDec M)) (c : Ctx) (roomier : Proposal)
          (r : Prepared Ctx M) : Type 0 where
        pub built : Proposal
        pub finishes : r.outcome ≡ finished built
        pub txs : List Tx
        pub owned : All (OwnedBy lanes) txs
        pub verified : Proposal
        pub accepted :
            (pools : String → M) → run_process env lanes pools c roomier txs ≡ finished verified
        pub has_room : HasRoomOf built verified

      passed-Replays :
          (lane : BaseLane Ctx LegacyDec M) (lanes : List (Lane Ctx LegacyDec M))
          (w w' : World Ctx M) (p p' roomier : Proposal) (reaped : Reaped Ctx) (pool : M)
          → IsCoherent lane
          → IsRoomy lane
          → ((tx : Tx) → OwnedBy lanes tx → IsStranger lane tx)
          → HasRoomOf p roomier
          → Reaps env lane w p reaped
          → add_to_proposal env lane pool reaped.to_include p ≡ ok p'
          → w'.ctx ≡ reaped.ctx
          → ((next : Proposal)
              → HasRoomOf p' next
              → Replays lanes w'.ctx next (run_prepare env lanes w' p'))
          → Replays (base lane ∷ lanes) w.ctx roomier (run_prepare env lanes w' p')
      unfolding run_process
      passed-Replays lane lanes w w' p p' roomier reaped pool coherent roomy apart bigger reaps
            added same rest =
          let own = reaped.to_include in
          let before = w.pools lane.lane_name in
          let (roomier', added', bigger') =
            room lane w reaped pool p p' roomier roomy bigger reaps added in
          let later = rest roomier' bigger' in
          let accepts = λ (pools : String → M).
            coherent.accepts before (pools lane.lane_name) w.ctx p _ reaped later.txs reaps
              (strangers lane lanes later.txs apart later.owned) in
          record {
            built = later.built;
            finishes = later.finishes;
            txs = own ++ later.txs;
            owned =
                All-append (OwnedBy (base lane ∷ lanes)) own later.txs
                  (mine lane lanes own (coherent.owned before w.ctx p _ reaped reaps))
                  (others lane lanes later.txs later.owned);
            verified = later.verified;
            accepted = λ pools.
                process_lane_split lane (pools lane.lane_name) (run_process env lanes pools) w.ctx
                  reaped.ctx roomier roomier' own later.txs (accepts pools)
                  (coherent.idle before w.ctx p _ reaped reaps) (added' (pools lane.lane_name))
                ∙ subst
                    (λ c.
                      run_process env lanes pools c roomier' later.txs ≡ finished later.verified)
                    same (later.accepted pools);
            has_room = later.has_room;
          }

      passed_over-Replays :
          (lane : BaseLane Ctx LegacyDec M) (lanes : List (Lane Ctx LegacyDec M)) (c : Ctx)
          (w' : World Ctx M) (p roomier : Proposal)
          → IsCoherent lane
          → ((tx : Tx) → OwnedBy lanes tx → IsStranger lane tx)
          → Replays lanes c roomier (run_prepare env lanes w' p)
          → Replays (base lane ∷ lanes) c roomier (run_prepare env lanes w' p)
      unfolding run_process
      passed_over-Replays lane lanes c w' p roomier coherent apart rest = record {
        built = rest.built;
        finishes = rest.finishes;
        txs = rest.txs;
        owned = others lane lanes rest.txs rest.owned;
        verified = rest.verified;
        accepted = λ pools.
            process_lane_split lane (pools lane.lane_name) (run_process env lanes pools) c c roomier
              roomier [] rest.txs
              (coherent.passes (pools lane.lane_name) c rest.txs
                (strangers lane lanes rest.txs apart rest.owned))
              (λ e. refl) (add_to_proposal_none lane (pools lane.lane_name) roomier)
            ∙ rest.accepted pools;
        has_room = rest.has_room;
      }

      terminator-Replays :
          (lanes : List (Lane Ctx LegacyDec M)) (w : World Ctx M) (p roomier : Proposal)
          → HasRoomOf p roomier
          → Replays (terminator ∷ lanes) w.ctx roomier (run_prepare env (terminator ∷ lanes) w p)
      unfolding run_prepare run_process
      terminator-Replays lanes w p roomier bigger = record {
        built = p;
        finishes = refl;
        txs = [];
        owned = tt;
        verified = roomier;
        accepted = λ pools. refl;
        has_room = bigger;
      }

      pub run_prepare-Replays :
          (lanes : List (Lane Ctx LegacyDec M)) (w : World Ctx M) (p roomier : Proposal)
          → IsTerminated lanes
          → AllLanes IsCoherent lanes
          → AllLanes IsRoomy lanes
          → AreApart lanes
          → HasRoomOf p roomier
          → Replays lanes w.ctx roomier (run_prepare env lanes w p)
      run_prepare-Replays [] w p roomier h coherent roomy apart bigger = absurd h
      run_prepare-Replays (terminator ∷ lanes) w p roomier h coherent roomy apart bigger =
          terminator-Replays lanes w p roomier bigger
      run_prepare-Replays (base lane ∷ lanes) w p roomier h coherent roomy apart bigger =
          by_run
            (run_prepare-ChainRun env lane lanes w p h
              (λ w' p'. run_prepare-finished env lanes w' p' h))
            (λ w' p' next has.
              run_prepare-Replays lanes w' p' next h coherent.1 roomy.1 apart.1 has)
        where
          by_run :
              {r : Prepared Ctx M}
              → ChainRun env lane lanes w p r
              → ((w' : World Ctx M) (p' next : Proposal)
                  → HasRoomOf p' next
                  → Replays lanes w'.ctx next (run_prepare env lanes w' p'))
              → Replays (base lane ∷ lanes) w.ctx roomier r
          by_run (passed reaped pool w' p' reaps added same e) rest =
              subst (Replays (base lane ∷ lanes) w.ctx roomier) (sym e) (
                passed-Replays lane lanes w w' p p' roomier reaped pool coherent.0 roomy.0 apart.0
                  bigger reaps added same (rest w' p'))
          by_run (passed_over failure e) rest =
              let v = skipped env w (prepared env lane lanes w p) in
              subst (Replays (base lane ∷ lanes) w.ctx roomier) (sym e) (
                passed_over-Replays lane lanes w.ctx v p roomier coherent.0 apart.0
                  (rest v p roomier bigger))

  module _ (Owns : BaseLane Ctx LegacyDec M → Tx → Type 0) (encode : Tx → Result String Bytes) where
    OwnedBy-terminated :
        (chain : List (Lane Ctx LegacyDec M)) (tx : Tx)
        → OwnedBy Owns encode (terminated chain) tx
        → OwnedBy Owns encode chain tx
    unfolding terminated
    OwnedBy-terminated [] tx h = h
    OwnedBy-terminated (terminator ∷ []) tx h = h
    OwnedBy-terminated (base lane ∷ []) tx h = h
    OwnedBy-terminated (terminator ∷ l ∷ lanes) tx h = h
    OwnedBy-terminated (base lane ∷ l ∷ lanes) tx (inl h) = inl h
    OwnedBy-terminated (base lane ∷ l ∷ lanes) tx (inr h) =
        inr (OwnedBy-terminated (l ∷ lanes) tx h)

    pub AreApart-terminated :
        (chain : List (Lane Ctx LegacyDec M))
        → AreApart Owns encode chain
        → AreApart Owns encode (terminated chain)
    unfolding terminated
    AreApart-terminated [] h = h
    AreApart-terminated (terminator ∷ []) h = h
    AreApart-terminated (base lane ∷ []) h = h
    AreApart-terminated (terminator ∷ l ∷ lanes) h = tt
    AreApart-terminated (base lane ∷ l ∷ lanes) h = (
      λ tx owned. h.0 tx (OwnedBy-terminated (l ∷ lanes) tx owned),
      AreApart-terminated (l ∷ lanes) h.1,
    )

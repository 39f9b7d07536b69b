-- ===== src/Base/Replay.antt =====
-- block/base/proposals.go: a verifier with a mempool of its own accepts what the default
-- `PrepareLaneHandler` selects.
use block_sdk.Prelude.{◌≡◌, refl, none, List, [], ◌∷◌, ◌++◌, All, ok}
use block_sdk.Proposals.{Proposal, LaneLimits}
use block_sdk.Sdk.{Tx}
use block_sdk.Base.{Env, LaneCore, verify_tx}
use block_sdk.Base.Select.{
  Verdict, skip, evict, select, Selection, no_selection, judge, apply_verdict, select_txs,
  default_prepare_lane_handler,
}
use block_sdk.Base.Process.{default_process_lane_handler}
use block_sdk.Base.Selection.{Admits, Admits-append, judge-IsSelected}
use block_sdk.Base.Acceptance.{IsForeign}
use block_sdk.Base.RoundTrip.{
  Pairs, Precedes, Admits-IsProcessed, select_txs-Pairs, default_process_lane_handler_iff,
}

module _ {Ctx LegacyDec M : Type 0} (env : Env Ctx LegacyDec M)
    (lane : LaneCore Ctx LegacyDec M) where
  module _ (proposal : Proposal) (limit : LaneLimits) (start : Ctx) where
    step_Admits :
        (s : Selection Ctx) (tx : Tx) (v : Verdict Ctx)
        → judge env lane proposal limit s tx ≡ v
        → Admits env lane start s.to_include s.ctx
        → Admits env lane start
            (apply_verdict env lane tx s v).to_include
            (apply_verdict env lane tx s v).ctx
    unfolding apply_verdict
    step_Admits s tx skip e h = h
    step_Admits s tx evict e h = h
    step_Admits s tx (select info c) e h =
        let chosen = judge-IsSelected env lane proposal limit s tx info c e in
        Admits-append env lane start s.to_include s.ctx tx c h chosen.matches chosen.verified

    select_txs-Admits :
        (txs : List Tx) (s : Selection Ctx)
        → Admits env lane start s.to_include s.ctx
        → Admits env lane start
            (select_txs env lane proposal limit txs s).to_include
            (select_txs env lane proposal limit txs s).ctx
    unfolding select_txs
    select_txs-Admits [] s h = h
    select_txs-Admits (tx ∷ txs) s h = select_txs-Admits txs _ (step_Admits s tx _ refl h)

  -- Whatever the limits are, what is selected matches the lane and passes the ante handler.
  pub default_prepare_lane_handler-Admits :
      (c : Ctx) (proposal : Proposal) (limit : LaneLimits)
      → Admits env lane c
          (default_prepare_lane_handler env lane c proposal limit).to_include
          (default_prepare_lane_handler env lane c proposal limit).ctx
  unfolding default_prepare_lane_handler Admits
  default_prepare_lane_handler-Admits c proposal limit =
      select_txs-Admits proposal limit c (env.pool.select c lane.mempool) (no_selection c) refl

  module _ (other : M) where
    abbrev verifier : LaneCore Ctx LegacyDec M
    verifier = record lane { mempool = other }

    Admits-verifier :
        (c : Ctx) (txs : List Tx) (c' : Ctx)
        → Admits env lane c txs c'
        → Admits env verifier c txs c'
    unfolding Admits verify_tx
    Admits-verifier c [] c' h = h
    Admits-verifier c (tx ∷ txs) c' (matched, next, verified, more) =
        (matched, next, verified, Admits-verifier next txs c' more)

    -- The round trip of the default handlers for a verifier with another mempool.
    pub process-prepare_other :
        (c : Ctx) (proposal : Proposal) (limit : LaneLimits) (rest : List Tx)
        → Pairs (Precedes env verifier) (env.pool.select c lane.mempool)
        → All
            (IsForeign env verifier (default_prepare_lane_handler env lane c proposal limit).ctx)
            rest
        → default_process_lane_handler env verifier c
            ((default_prepare_lane_handler env lane c proposal limit).to_include ++ rest)
          ≡ ok (
            (default_prepare_lane_handler env lane c proposal limit).to_include,
            rest,
            (default_prepare_lane_handler env lane c proposal limit).ctx,
          )
    unfolding default_prepare_lane_handler
    process-prepare_other c proposal limit rest ordered foreign =
        let txs = env.pool.select c lane.mempool in
        let admitted = default_prepare_lane_handler-Admits c proposal limit in
        (default_process_lane_handler_iff env verifier c _ _ rest _).1 (
          refl,
          Admits-IsProcessed env verifier none c _ rest _ (Admits-verifier c _ _ admitted) tt
              (select_txs-Pairs env lane proposal limit (Precedes env verifier) txs (no_selection c)
                ordered)
              foreign,
        )

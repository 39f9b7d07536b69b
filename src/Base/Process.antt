-- ===== src/Base/Process.antt =====
-- block/base/proposals.go: the default `ProcessLaneHandler`.
use block_sdk.Prelude.{
  Bool, true, false, Option, none, some, List, [], ◌∷◌, negsuc, leb_ℤ, ◌&&◌, Result, ok, err, ◌>>=◌,
  ◌>>◌, guard, map_err, if◌then◌else◌,
}
use block_sdk.Sdk.{Tx}
use block_sdk.Base.{
  Env, LaneCore, LaneError, higher_priority, no_matches_failed, verify_failed, verify_tx,
  verify_no_matches,
}

module _ {Ctx LegacyDec M : Type 0} (env : Env Ctx LegacyDec M)
    (lane : LaneCore Ctx LegacyDec M) where
  -- `v, err := h.lane.Compare(...); v == -1 || err != nil`
  unfoldable pub in_order : Ctx → Tx → Tx → Bool
  in_order ctx this other = elim (env.pool.compare lane.mempool ctx this other) [
    | err e ↦ false
    | ok v ↦ if leb_ℤ v (negsuc 0) && leb_ℤ (negsuc 0) v then false else true
  ]

  -- The comparison with the transaction before, from the second transaction on.
  unfoldable pub check_order : Ctx → Option Tx → Tx → Result LaneError Unit
  check_order ctx none tx = ok tt
  check_order ctx (some previous) tx = guard (in_order ctx previous tx) higher_priority

  -- The loop: the transactions of the lane, the rest of the proposal, and the context.
  unfoldable pub process_txs :
      Option Tx → List Tx → Ctx → Result LaneError (List Tx × List Tx × Ctx)
  process_txs previous [] ctx = ok ([], [], ctx)
  process_txs previous (tx ∷ txs) ctx = elim (lane.match_handler ctx tx) [
    | true ↦ do
      check_order ctx previous tx
      ctx' ← map_err verify_failed (verify_tx env lane ctx tx false)
      (own, rest, ctx'') ← process_txs (some tx) txs ctx'
      ok (tx ∷ own, rest, ctx'')
    | false ↦ do
      map_err no_matches_failed (verify_no_matches env lane ctx txs)
      ok ([], tx ∷ txs, ctx)
  ]

  unfoldable pub default_process_lane_handler :
      Ctx → List Tx → Result LaneError (List Tx × List Tx × Ctx)
  default_process_lane_handler ctx partial = process_txs none partial ctx

-- ===== src/CheckTx/Parity.antt =====
-- abci/checktx/mempool_parity_check_tx.go: `MempoolParityCheckTx`.
use block_sdk.Prelude.{
  Bool, true, false, not, ◌&&◌, Option, none, some, List, [], ◌∷◌, ℤ, pos, leb_ℤ, length, ok, err,
  if◌then◌else◌,
}
use block_sdk.Sdk.{Tx}
use block_sdk.Base.{Env}
use block_sdk.Base.Lane.{BaseLane}
use block_sdk.Mempool.{contains_tx, remove_tx}
use block_sdk.CheckTx.{
  RequestCheckTx, ResponseCheckTx, CheckError, decode_failed, not_in_mempool, no_lane, tx_too_large,
  CheckOutcome, returned, check_panic, CheckState, CheckTx, CheckHost, is_recheck,
  is_invalid_check_tx_execution, get_context_for_tx,
}

-- `matchLane`: the first lane that matches
unfoldable pub match_lane :
    {Ctx LegacyDec M : Type 0}
    → List (BaseLane Ctx LegacyDec M)
    → Ctx
    → Tx
    → Option (BaseLane Ctx LegacyDec M)
match_lane [] ctx tx = none
match_lane (lane ∷ lanes) ctx tx =
    if lane.match_handler ctx tx then some lane else match_lane lanes ctx tx

module _ {Ctx LegacyDec M A : Type 0} (env : Env Ctx LegacyDec M) (host : CheckHost Ctx A)
    (registry : List (BaseLane Ctx LegacyDec M)) where
  -- the responses that the handler builds itself
  abbrev pub reject : CheckError → CheckOutcome
  reject e = returned (some (host.response_with_events e 0 0)) none

  -- The deferred removal; its error is only logged.
  unfoldable pub clean_up : Bool → Tx → CheckState A M → CheckState A M
  clean_up remove tx s = elim remove [
    | false ↦ s
    | true ↦ elim (remove_tx env registry tx s.pools) [
      | err e ↦ s
      | ok pools ↦ record s { pools = pools }
    ]
  ]

  -- `laneSize`
  unfoldable pub lane_size : Ctx → BaseLane Ctx LegacyDec M → ℤ
  lane_size ctx lane = env.ops.mul_int64 lane.cfg.max_block_space (host.block_params ctx).max_bytes

  -- The handler after the wrapped one has returned; `purge` is `isReCheck && txInMempool`.
  unfoldable pub finish_check :
      RequestCheckTx
      → Tx
      → Bool
      → Option ResponseCheckTx
      → Option CheckError
      → CheckState A M
      → CheckOutcome × CheckState A M
  finish_check req tx purge res e s =
      let ctx = get_context_for_tx host s.app req in
      elim (match_lane registry ctx tx) [
        | none ↦ (reject no_lane, clean_up purge tx s)
        | some lane ↦
            if leb_ℤ (pos (length req.tx_bytes)) (lane_size ctx lane)
            then (returned res e, clean_up (is_invalid_check_tx_execution res e && purge) tx s)
            else (reject (tx_too_large lane.lane_name), clean_up purge tx s)
      ]

  -- A panic of the wrapped handler passes through.
  unfoldable pub after_handler :
      RequestCheckTx → Tx → Bool → CheckOutcome × CheckState A M → CheckOutcome × CheckState A M
  after_handler req tx purge (check_panic, s) = (check_panic, s)
  after_handler req tx purge (returned res e, s) = finish_check req tx purge res e s

  -- `MempoolParityCheckTx.CheckTx`
  unfoldable pub parity_check_tx : CheckTx A M → CheckTx A M
  parity_check_tx check_tx_handler req s = elim (host.tx_decoder req.tx_bytes) [
    | err e ↦ (reject (decode_failed e), s)
    | ok tx ↦
        let held = contains_tx env registry s.pools tx in
        if is_recheck req && not held
        then (reject not_in_mempool, s)
        else after_handler req tx (is_recheck req && held) (check_tx_handler req s)
  ]

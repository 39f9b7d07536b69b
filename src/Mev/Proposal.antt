-- ===== src/Mev/Proposal.antt =====
-- lanes/mev/abci.go: the handlers of the auction lane.
use block_sdk.Prelude.{
  ℕ, Bool, true, false, not, ◌&&◌, ◌==◌, none, some, List, [], ◌∷◌, ◌++◌, ℤ, leb, leb_ℤ, length,
  take, drop, add_int64, add_uint64, Result, ok, err, ◌>>=◌, ◌>>◌, guard, map_err, if◌then◌else◌,
}
use block_sdk.Proposals.{Bytes, Proposal, LaneLimits, contains}
use block_sdk.Sdk.{Tx}
use block_sdk.Base.{
  Env, LaneCore, LaneError, encode_failed, handler_failed, belongs_to_lane, get_tx_info, verify_tx,
  verify_no_matches,
}
use block_sdk.Base.Lane.{Outcome, finished, Reaped, Split, split_of}
use block_sdk.Auction.{BidInfo}
use block_sdk.Mev.{Factory}

-- `bytes.Equal`
unfoldable pub bytes_eq : Bytes → Bytes → Bool
bytes_eq [] [] = true
bytes_eq (a ∷ cs) (b ∷ bs) = (a == b) && bytes_eq cs bs
bytes_eq _ _ = false

-- The sums of `VerifyBidBasic`, with the decoded bundle.
pub record Bundle : Type 0 where
  pub size : ℤ
  pub gas : ℕ
  pub txs : List Tx

module _ {Ctx LegacyDec M : Type 0} (env : Env Ctx LegacyDec M) (factory : Factory)
    (lane : LaneCore Ctx LegacyDec M) where
  -- The info of a bid; a nil info is an error.
  unfoldable pub get_bid_info : Tx → Result LaneError BidInfo
  get_bid_info tx = elim (factory.get_auction_bid_info tx) [
    | err e ↦ err (handler_failed e)
    | ok none ↦ err (handler_failed "bid info is nil")
    | ok (some info) ↦ ok info
  ]

  -- The loop of `VerifyBidTx` over the bundle.
  unfoldable pub verify_bundle : Ctx → List Tx → Result LaneError Ctx
  verify_bundle ctx [] = ok ctx
  verify_bundle ctx (tx ∷ txs) = do
    guard (not (lane.match_handler ctx tx)) belongs_to_lane
    ctx' ← verify_tx env lane ctx tx false
    verify_bundle ctx' txs

  unfoldable pub verify_bid_tx : Ctx → Tx → List Tx → Result LaneError Ctx
  verify_bid_tx ctx bid_tx bundle = do
    _ ← get_bid_info bid_tx
    ctx' ← verify_tx env lane ctx bid_tx false
    verify_bundle ctx' bundle

  -- The loop of `VerifyBidBasic` over the bundle.
  unfoldable pub sum_bundle : Proposal → List Bytes → Bundle → Result LaneError Bundle
  sum_bundle proposal [] b = ok b
  sum_bundle proposal (bz ∷ bzs) b = do
    tx ← map_err handler_failed (factory.wrap_bundle_transaction bz)
    info ← get_tx_info env lane tx
    guard (not (contains proposal info.hash))
        (handler_failed "bundled tx is already in the proposal")
    sum_bundle proposal bzs (record {
      size = add_int64 b.size info.size;
      gas = add_uint64 b.gas info.gas_limit;
      txs = b.txs ++ tx ∷ [];
    })

  unfoldable pub verify_bid_basic : Tx → Proposal → LaneLimits → Result LaneError (List Tx)
  verify_bid_basic bid_tx proposal limit = do
    bid_info ← get_bid_info bid_tx
    info ← get_tx_info env lane bid_tx
    guard (not (contains proposal info.hash)) (handler_failed "bid tx is already in the proposal")
    b ←
        sum_bundle proposal bid_info.transactions
          (record { size = info.size; gas = info.gas_limit; txs = [] })
    guard (leb_ℤ b.size limit.max_tx_bytes) (handler_failed "partial proposal is too large")
    guard (leb b.gas limit.max_gas_limit) (handler_failed "partial proposal consumes too much gas")
    ok b.txs

  -- The checks of a bid in `PrepareLaneHandler`: the transactions to include and the context.
  unfoldable pub try_bid : Ctx → Tx → Proposal → LaneLimits → Result LaneError (List Tx × Ctx)
  try_bid ctx bid_tx proposal limit = do
    guard (lane.match_handler ctx bid_tx) (handler_failed "tx does not match lane")
    bundle ← verify_bid_basic bid_tx proposal limit
    ctx' ← verify_bid_tx ctx bid_tx bundle
    ok (bid_tx ∷ bundle, ctx')

  -- The loop over the iterator: it ends at the first bid that passes.
  unfoldable pub select_bid : Ctx → Proposal → LaneLimits → List Tx → List Tx → Reaped Ctx
  select_bid ctx proposal limit [] removed = record {
    to_include = [];
    to_remove = removed;
    ctx = ctx;
  }
  select_bid ctx proposal limit (tx ∷ txs) removed =
      let rest = select_bid ctx proposal limit txs (removed ++ tx ∷ []) in
      elim (try_bid ctx tx proposal limit) [
        | err e ↦ rest
        | ok (included, ctx') ↦ record { to_include = included; to_remove = removed; ctx = ctx' }
      ]

  unfoldable pub mev_prepare_lane_handler : Ctx → Proposal → LaneLimits → Outcome (Reaped Ctx)
  mev_prepare_lane_handler ctx proposal limit =
      finished (select_bid ctx proposal limit (env.pool.select ctx lane.mempool) [])

  -- The loop of `ProcessLaneHandler`: the bundle of the bid and that of the proposal encode alike.
  -- Both have the same length.
  unfoldable pub match_bundle : List Bytes → List Tx → Result LaneError Unit
  match_bundle [] bundle = ok tt
  match_bundle (bz ∷ bzs) [] = err (handler_failed "bundled tx does not match")
  match_bundle (bz ∷ bzs) (actual ∷ bundle) = do
    expected ← map_err handler_failed (factory.wrap_bundle_transaction bz)
    expected_bz ← map_err encode_failed (lane.cfg.tx_encoder expected)
    actual_bz ← map_err encode_failed (lane.cfg.tx_encoder actual)
    guard (bytes_eq actual_bz expected_bz) (handler_failed "bundled tx does not match")
    match_bundle bzs bundle

  -- A first transaction that matches the lane.
  unfoldable pub process_bid : Ctx → Tx → List Tx → Result LaneError (List Tx × List Tx × Ctx)
  process_bid ctx bid_tx rest = do
    info ← get_bid_info bid_tx
    let n = length info.transactions
    guard (leb n (length rest)) (handler_failed "bundled transactions are missing")
    match_bundle info.transactions (take n rest)
    ctx' ← verify_bid_tx ctx bid_tx (take n rest)
    ok (bid_tx ∷ take n rest, drop n rest, ctx')

  -- A first transaction that does not.
  unfoldable pub pass_by : Ctx → Tx → List Tx → Result LaneError (List Tx × List Tx × Ctx)
  pass_by ctx tx rest = do verify_no_matches env lane ctx rest; ok ([], tx ∷ rest, ctx)

  unfoldable pub process_auction : Ctx → List Tx → Result LaneError (List Tx × List Tx × Ctx)
  process_auction ctx [] = ok ([], [], ctx)
  process_auction ctx (tx ∷ txs) =
      if lane.match_handler ctx tx then process_bid ctx tx txs else pass_by ctx tx txs

  unfoldable pub mev_process_lane_handler : Ctx → List Tx → Outcome (Split Ctx)
  mev_process_lane_handler ctx txs = split_of env (process_auction ctx txs)

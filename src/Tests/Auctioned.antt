-- ===== src/Tests/Auctioned.antt =====
-- abci/checktx with x/auction/ante at concrete inputs: a bid of 100 enters an auction lane that holds
-- one of 90.
use block_sdk.Prelude.{
  ◌+◌, ◌≤◌, ◌%◌, ◌^◌, ◌≡◌, refl, String, Bool, true, false, none, some, List, [], ◌∷◌, ◌++◌, ℤ, pos,
  length, Result, ok, arith, ◌==◌, if◌then◌else◌,
}
use block_sdk.Sdk.{Tx}
use block_sdk.Base.{Env, LaneConfig, LaneMempool}
use block_sdk.Base.Lane.{BaseLane, default_prepare, default_process}
use block_sdk.Mev.{Factory}
use block_sdk.Mev.Order.{get_top_auction_tx}
use block_sdk.Ante.{AnteError}
use block_sdk.CheckTx.{
  RequestCheckTx, new_tx, check_panic, CheckState, CheckTx, CheckHost, CheckLaws,
  is_invalid_check_tx_execution, get_context_for_bid_tx,
}
use block_sdk.CheckTx.Bid.{
  no_bid, check_bundle, finish_validation, validate_bid_tx, finish_insert, settle_bid, check_bid,
  check_decoded, recover_check, mev_check_tx,
}
use block_sdk.CheckTx.Eviction.{refuses}
use block_sdk.CheckTx.Accepted.{IsAcceptedBid}
use block_sdk.CheckTx.Auctioned.{mev_lane_over, auction_ante, mev_check_tx-bounds}
use block_sdk.Tests.Decimals.{units_ops}
use block_sdk.Tests.Lanes.{tx_of}
use block_sdk.Tests.Auction.{State, coin_ops, coin_laws, params, host, before, info, params_known}
use block_sdk.Tests.Ante.{ante_program, bid_tx, top_tx, top_info, height, checking, encode, in_mode}

abbrev pools : LaneMempool State (List Tx)
pools = record {
  insert = λ ctx tx pool. ok (pool ++ tx ∷ []);
  remove = λ tx pool. ok pool;
  select = λ ctx pool. pool;
  count_tx = length;
  holds = λ pool tx. false;
  compare = λ pool ctx this other. ok (pos 0);
}

abbrev env : Env State ℤ (List Tx)
env = record { hash = λ bytes. "A"; ops = units_ops; pool = pools }

abbrev cfg : LaneConfig State ℤ
cfg = record {
  tx_encoder = encode;
  tx_decoder = λ bytes. ok (tx_of bytes 10);
  ante_handler = none;
  get_signers = λ tx. ok [];
  max_block_space = pos 0;
}

abbrev lane : BaseLane State ℤ (List Tx)
lane = record {
  cfg = cfg;
  lane_name = "mev";
  match_handler = λ ctx tx. true;
  prepare_lane_handler = default_prepare env;
  process_lane_handler = default_process env;
}

abbrev factory : Factory
factory = record {
  wrap_bundle_transaction = λ bytes. ok (tx_of (bytes ++ 0 ∷ 0 ∷ []) 10);
  get_auction_bid_info = λ tx. ok (
      if length tx.body == 1
      then some info
      else if length tx.body == 2
      then some top_info
      else none);
}

-- The application is the state of x/auction.
abbrev check_host : CheckHost State State
check_host = record {
  tx_decoder = λ bytes. ok (tx_of bytes 10);
  new_context = λ app. app;
  with_tx_bytes = λ ctx bytes. ctx;
  with_event_manager = λ ctx. ctx;
  with_is_check_tx = λ ctx. ctx;
  with_is_recheck_tx = λ ctx. ctx;
  get_consensus_params = λ app ctx. record { max_bytes = pos 100; max_gas = pos 1000 };
  with_consensus_params = λ ctx block. ctx;
  with_store = λ ctx after. after;
  block_params = λ ctx. record { max_bytes = pos 100; max_gas = pos 1000 };
  gas_limit = λ ctx. 70;
  gas_consumed = λ ctx. 50;
  response_with_events =
      λ e wanted used. record { code = 1; gas_wanted = pos wanted; gas_used = pos used };
}

check_host_laws : CheckLaws check_host
check_host_laws = record { error_code = λ e wanted used h. cc }

abbrev pass : State → Tx → Bool → Result AnteError State
pass s tx simulate = ok s

abbrev request : RequestCheckTx
request = record { tx_bytes = 1 ∷ []; check_type = new_tx }

abbrev state : CheckState State (List Tx)
state = record { app = before; pools = λ name. top_tx ∷ [] }

abbrev refuse_all : CheckTx State (List Tx)
refuse_all req s = (check_panic, s)

abbrev ante : State → Tx → Bool → Result String State
ante =
    auction_ante env check_host factory lane host coin_ops height checking encode pass (λ e. "ante")
      (top_tx ∷ [])

taken : refuses (mev_check_tx env check_host factory ante lane refuse_all request state).0 ≡ false
unfolding ante_program auction_ante mev_lane_over get_top_auction_tx mev_check_tx recover_check
    check_decoded check_bid settle_bid finish_insert validate_bid_tx finish_validation check_bundle
    is_invalid_check_tx_execution get_context_for_bid_tx no_bid
taken = refl

in_context : get_context_for_bid_tx check_host before request ≡ some before
unfolding get_context_for_bid_tx
in_context = refl

mev_check_tx-bounds_example :
    (info.timeout ≡ 6 + 1)
    × (length info.transactions % 2 ^ 32 ≤ params.max_bundle_size)
    × (info.bid.denom ≡ params.reserve_fee.denom)
    × (10 ≤ 100)
    × (90 + 5 ≤ 100)
    × IsAcceptedBid env check_host factory ante lane request state
        (mev_check_tx env check_host factory ante lane refuse_all request state).1
        bid_tx
        info
mev_check_tx-bounds_example =
    mev_check_tx-bounds env check_host factory lane host coin_ops height checking encode pass
      (λ e. "ante") coin_laws check_host_laws refuse_all request state before bid_tx top_tx [] info
      top_info (1 ∷ []) (1 ∷ 2 ∷ []) params 6 100 90 10 5 refl refl in_context in_mode refl
      (omega arith) (omega arith) refl refl refl refl (λ e. cc) params_known refl refl refl refl
      taken

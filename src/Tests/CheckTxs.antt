-- ===== src/Tests/CheckTxs.antt =====
-- abci/checktx at a concrete application, whose mempools hold everything or nothing.
use block_sdk.Prelude.{
  ℕ, suc, ◌/◌, ◌≡◌, refl, String, Bool, true, false, none, some, Option, List, [], ◌∷◌, ℤ, pos,
  length, Result, ok, err, arith, has_key, str_eq, ◌==◌, if◌then◌else◌,
}
use block_sdk.Decimal.{precision}
use block_sdk.Sdk.{Tx}
use block_sdk.Auction.{BidInfo}
use block_sdk.Base.{Env, LaneConfig, LaneMempool}
use block_sdk.Base.Lane.{BaseLane, default_prepare, default_process}
use block_sdk.Mempool.{contains_tx, remove_tx}
use block_sdk.Mempool.Registry.{HaveNewNames}
use block_sdk.Mempool.Removal.{IsRemoving, IsHeldOnce}
use block_sdk.Mev.{Factory}
use block_sdk.CheckTx.{
  RequestCheckTx, CheckTxType, new_tx, recheck_tx, ResponseCheckTx, CheckOutcome, returned,
  CheckState, CheckTx, CheckHost, CheckLaws, is_recheck, is_invalid_check_tx_execution,
  get_context_for_tx, get_context_for_bid_tx, ante_failed,
}
use block_sdk.CheckTx.Parity.{
  match_lane, clean_up, lane_size, finish_check, after_handler, parity_check_tx,
}
use block_sdk.CheckTx.Bid.{
  no_bid, check_bundle, finish_validation, validate_bid_tx, finish_insert, settle_bid, check_bid,
  check_decoded, recover_check, mev_check_tx,
}
use block_sdk.CheckTx.Eviction.{refuses, HasRoom, parity_check_tx_evicts, parity_check_tx_passes}
use block_sdk.CheckTx.Accepted.{IsAcceptedBid, mev_check_tx-IsAcceptedBid}
use block_sdk.CheckTx.Refused.{IsEvicted, mev_check_tx_evicts}
use block_sdk.CheckTx.Space.{parity_check_tx_new_state, zero_space_refuses}
use block_sdk.Tests.Decimals.{units_ops, units_laws}
use block_sdk.Tests.Lanes.{tx_of}

abbrev pools : LaneMempool ℕ Bool
pools = record {
  insert = λ ctx tx pool. ok true;
  remove = λ tx pool. ok false;
  select = λ ctx pool. [];
  count_tx = λ pool. 0;
  holds = λ pool tx. pool;
  compare = λ pool ctx this other. ok (pos 0);
}

abbrev env : Env ℕ ℤ Bool
env = record { hash = λ bytes. "A"; ops = units_ops; pool = pools }

abbrev cfg : ℕ → LaneConfig ℕ ℤ
cfg units = record {
  tx_encoder = λ tx. ok tx.body;
  tx_decoder = λ bytes. ok (tx_of bytes 10);
  ante_handler = none;
  get_signers = λ tx. ok [];
  max_block_space = pos units;
}

abbrev lane_of : String → ℕ → ℕ → BaseLane ℕ ℤ Bool
lane_of name units size = record {
  cfg = cfg units;
  lane_name = name;
  match_handler = λ ctx tx. length tx.body == size;
  prepare_lane_handler = default_prepare env;
  process_lane_handler = default_process env;
}

abbrev mev_lane : BaseLane ℕ ℤ Bool
mev_lane = lane_of "mev" (precision / 5) 2

abbrev free_lane : BaseLane ℕ ℤ Bool
free_lane = lane_of "free" 0 3

abbrev registry : List (BaseLane ℕ ℤ Bool)
registry = mev_lane ∷ lane_of "default" (precision / 2) 1 ∷ free_lane ∷ []

abbrev host : CheckHost ℕ ℕ
host = record {
  tx_decoder = λ bytes. ok (tx_of bytes 10);
  new_context = λ app. app;
  with_tx_bytes = λ ctx bytes. ctx;
  with_event_manager = λ ctx. ctx;
  with_is_check_tx = λ ctx. ctx;
  with_is_recheck_tx = λ ctx. ctx;
  get_consensus_params = λ app ctx. record { max_bytes = pos 100; max_gas = pos 1000 };
  with_consensus_params = λ ctx block. ctx;
  with_store = λ ctx after. after;
  block_params = λ ctx. record { max_bytes = pos 100; max_gas = pos 1000 };
  gas_limit = λ ctx. 70;
  gas_consumed = λ ctx. 50;
  response_with_events =
      λ e wanted used. record { code = 1; gas_wanted = pos wanted; gas_used = pos used };
}

host_laws : CheckLaws host
host_laws = record { error_code = λ e wanted used h. cc }

abbrev request : List ℕ → CheckTxType → RequestCheckTx
request bytes kind = record { tx_bytes = bytes; check_type = kind }

abbrev state : CheckState ℕ Bool
state = record { app = 4; pools = λ name. str_eq name "default" }

-- wrapped handlers that accept and that refuse everything
abbrev accept_all : CheckTx ℕ Bool
accept_all req s =
    (returned (some (record { code = 0; gas_wanted = pos 7; gas_used = pos 5 })) none, s)

abbrev refuse_all : CheckTx ℕ Bool
refuse_all req s =
    (returned (some (record { code = 5; gas_wanted = pos 7; gas_used = pos 5 })) none, s)

always_removes : (tx : Tx) → IsRemoving env units_laws tx
always_removes tx = record { removes = λ pool held. (false, refl, refl) }

registry-HaveNewNames : HaveNewNames env units_laws [] registry
unfolding has_key str_eq
registry-HaveNewNames = (refl, (refl, (refl, tt)))

state-IsHeldOnce : (tx : Tx) → IsHeldOnce env units_laws registry state.pools tx
unfolding contains_tx str_eq
state-IsHeldOnce tx = (λ h. cc, (λ h. refl, (λ h. cc, tt)))

-- A transaction of one byte, which the default lane takes, is checked again and refused.
refused_again :
    refuses (parity_check_tx env host registry refuse_all (request (9 ∷ []) recheck_tx) state).0
    ≡ true
unfolding parity_check_tx after_handler finish_check match_lane lane_size clean_up contains_tx
    is_recheck is_invalid_check_tx_execution str_eq get_context_for_tx remove_tx
refused_again = refl

again : is_recheck (request (9 ∷ []) recheck_tx) ≡ true
unfolding is_recheck
again = refl

fresh : is_recheck (request (1 ∷ 2 ∷ 3 ∷ []) new_tx) ≡ false
unfolding is_recheck
fresh = refl

parity_check_tx_evicts_example :
    contains_tx env registry
      (parity_check_tx env host registry refuse_all (request (9 ∷ []) recheck_tx) state).1.pools
      (tx_of (9 ∷ []) 10)
    ≡ false
parity_check_tx_evicts_example =
    parity_check_tx_evicts env host registry units_laws (tx_of (9 ∷ []) 10)
      (always_removes (tx_of (9 ∷ []) 10)) registry-HaveNewNames refuse_all
      (request (9 ∷ []) recheck_tx) state refl again (state-IsHeldOnce (tx_of (9 ∷ []) 10))
      refused_again

-- The same transaction, accepted again.
abbrev accepted : CheckOutcome × CheckState ℕ Bool
accepted = accept_all (request (9 ∷ []) recheck_tx) state

accepted_again :
    parity_check_tx env host registry accept_all (request (9 ∷ []) recheck_tx) state
    ≡ (returned (some (record { code = 0; gas_wanted = pos 7; gas_used = pos 5 })) none, state)
unfolding parity_check_tx after_handler finish_check match_lane lane_size clean_up contains_tx
    is_recheck is_invalid_check_tx_execution str_eq get_context_for_tx remove_tx
accepted_again = refl

code_ok :
    is_invalid_check_tx_execution
      (some (record { code = 0; gas_wanted = pos 7; gas_used = pos 5 }))
      none
    ≡ false
unfolding is_invalid_check_tx_execution
code_ok = refl

parity_check_tx_passes_example :
    (accepted
      ≡ (returned (some (record { code = 0; gas_wanted = pos 7; gas_used = pos 5 })) none, state))
    × (is_recheck (request (9 ∷ []) recheck_tx) ≡ true
        → contains_tx env registry state.pools (tx_of (9 ∷ []) 10) ≡ true)
    × HasRoom env host registry (request (9 ∷ []) recheck_tx) (tx_of (9 ∷ []) 10) state
parity_check_tx_passes_example =
    parity_check_tx_passes env host registry host_laws accept_all (request (9 ∷ []) recheck_tx)
      state state (some (record { code = 0; gas_wanted = pos 7; gas_used = pos 5 })) none
      (tx_of (9 ∷ []) 10) refl accepted_again code_ok

parity_check_tx_new_state_example :
    (parity_check_tx env host registry accept_all (request (1 ∷ 2 ∷ 3 ∷ []) new_tx) state).1
    ≡ (accept_all (request (1 ∷ 2 ∷ 3 ∷ []) new_tx) state).1
parity_check_tx_new_state_example =
    parity_check_tx_new_state env host registry accept_all (request (1 ∷ 2 ∷ 3 ∷ []) new_tx) state
      (tx_of (1 ∷ 2 ∷ 3 ∷ []) 10) refl fresh

-- A transaction of three bytes, which the lane without a share takes.
abbrev too_large : Option ResponseCheckTx
too_large = some (record { code = 1; gas_wanted = pos 0; gas_used = pos 0 })

free_refused :
    parity_check_tx env host registry accept_all (request (1 ∷ 2 ∷ 3 ∷ []) new_tx) state
    ≡ (returned too_large none, state)
unfolding parity_check_tx after_handler finish_check match_lane lane_size clean_up contains_tx
    is_recheck is_invalid_check_tx_execution str_eq get_context_for_tx remove_tx
free_refused = refl

free_matched :
    match_lane registry
      (get_context_for_tx host 4 (request (1 ∷ 2 ∷ 3 ∷ []) new_tx))
      (tx_of (1 ∷ 2 ∷ 3 ∷ []) 10)
    ≡ some free_lane
unfolding match_lane
free_matched = refl

zero_space_refuses_example : is_invalid_check_tx_execution too_large none ≡ true
zero_space_refuses_example =
    zero_space_refuses env host registry units_laws host_laws accept_all
      (request (1 ∷ 2 ∷ 3 ∷ []) new_tx) state state too_large none (tx_of (1 ∷ 2 ∷ 3 ∷ []) 10)
      free_lane 100 refl (omega arith) free_matched refl refl free_refused

-- A bid of two bytes, whose bundle is one transaction of one byte.
abbrev bid : BidInfo
bid = record {
  bidder = "a";
  bid = record { denom = "stake"; amount = some (pos 8) };
  transactions = (9 ∷ []) ∷ [];
  timeout = 5;
  signers = [];
  transaction_timeouts = [];
}

abbrev factory : Factory
factory = record {
  wrap_bundle_transaction = λ bytes. ok (tx_of bytes 10);
  get_auction_bid_info = λ tx. ok (if length tx.body == 2 then some bid else none);
}

abbrev count_up : ℕ → Tx → Bool → Result String ℕ
count_up ctx tx simulate = ok (suc ctx)

abbrev refuse_ante : ℕ → Tx → Bool → Result String ℕ
refuse_ante ctx tx simulate = err "no"

abbrev bid_request : RequestCheckTx
bid_request = request (1 ∷ 2 ∷ []) new_tx

bid_accepted :
    refuses (mev_check_tx env host factory count_up mev_lane refuse_all bid_request state).0 ≡ false
unfolding mev_check_tx recover_check check_decoded check_bid settle_bid finish_insert
    validate_bid_tx finish_validation check_bundle is_invalid_check_tx_execution
    get_context_for_bid_tx no_bid
bid_accepted = refl

mev_check_tx-IsAcceptedBid_example :
    IsAcceptedBid env host factory count_up mev_lane bid_request state
      (mev_check_tx env host factory count_up mev_lane refuse_all bid_request state).1
      (tx_of (1 ∷ 2 ∷ []) 10)
      bid
mev_check_tx-IsAcceptedBid_example =
    mev_check_tx-IsAcceptedBid env host factory count_up mev_lane host_laws refuse_all bid_request
      state (tx_of (1 ∷ 2 ∷ []) 10) bid refl refl bid_accepted

bid_context : get_context_for_bid_tx host 4 bid_request ≡ some 4
unfolding get_context_for_bid_tx
bid_context = refl

bid_fails :
    (validate_bid_tx env host factory refuse_ante mev_lane 4 (tx_of (1 ∷ 2 ∷ []) 10) bid).1
    ≡ err (ante_failed "no")
unfolding validate_bid_tx finish_validation
bid_fails = refl

-- the auction lane holds the bid
abbrev bid_state : CheckState ℕ Bool
bid_state = record { app = 4; pools = λ name. str_eq name "mev" }

mev_check_tx_evicts_example :
    IsEvicted env host factory refuse_ante mev_lane bid_state
      (tx_of (1 ∷ 2 ∷ []) 10)
      (mev_check_tx env host factory refuse_ante mev_lane refuse_all bid_request bid_state)
mev_check_tx_evicts_example =
    mev_check_tx_evicts env host factory refuse_ante mev_lane host_laws refuse_all bid_request
      bid_state (tx_of (1 ∷ 2 ∷ []) 10) bid 4 (ante_failed "no") (λ pool held. (false, refl, refl))
      refl refl bid_context bid_fails

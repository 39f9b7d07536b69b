-- ===== src/Tests/Mev.antt =====
-- lanes/mev at concrete inputs: a bid for a bundle of one transaction.
use block_sdk.Prelude.{
  ◌⊎◌, inl, inr, sym, ok-injective, add_int64, add_uint64, has_key, ℕ, ℤ, ◌≡◌, refl, true, some,
  List, [], ◌∷◌, ◌++◌, ok, pos,
}
use block_sdk.Sdk.{auction_bid, Tx}
use block_sdk.Abci.Coherent.{IsCoherent}
use block_sdk.Proposals.{Bytes, Proposal, LaneLimits, new_proposal, contains}
use block_sdk.Base.{LaneCore, get_tx_info, verify_tx}
use block_sdk.Base.Lane.{BaseLane, finished, Reaped}
use block_sdk.Mev.{
  Factory, default_factory, mev_match_handler, get_msg_auction_bid_from_tx, get_timeout_height,
  get_bundle_info,
}
use block_sdk.Mev.Proposal.{
  bytes_eq, get_bid_info, verify_bundle, verify_bid_tx, match_bundle, process_bid, process_auction,
  sum_bundle, verify_bid_basic, try_bid, select_bid, mev_prepare_lane_handler,
  mev_process_lane_handler,
}
use block_sdk.Mev.Accepted.{Taken, process_auction-Taken}
use block_sdk.Mev.Contract.{mev-IsCoherent}
use block_sdk.Mev.First.{IsFirstValid, mev_prepare_lane_handler-IsFirstValid}
use block_sdk.Mev.RoundTrip.{mev_process_lane_handler-mev_prepare_lane_handler}
use block_sdk.Mev.Verifier.{elsewhere}
use block_sdk.Tests.Lanes.{env, cfg, tx_of}

abbrev bundled : Tx
bundled = record (tx_of (5 ∷ []) 10) { timeout = some 3 }

abbrev bid : Tx
bid = record (tx_of (9 ∷ []) 20) {
  msgs =
      auction_bid (record {
        bidder = "bob";
        bid = record { denom = "stake"; amount = some (pos 10) };
        transactions = (5 ∷ []) ∷ [];
      })
      ∷ [];
  timeout = some 3;
}

abbrev factory : Factory
factory = default_factory (λ bytes. ok bundled) (λ tx. ok []) (λ address. true)

abbrev core : LaneCore ℕ ℤ (List Tx)
core = record {
  cfg = cfg;
  lane_name = "mev";
  mempool = bid ∷ [];
  match_handler = mev_match_handler factory;
}

taken :
    process_auction env factory core 0 (bid ∷ bundled ∷ bundled ∷ [])
    ≡ ok (bid ∷ bundled ∷ [], bundled ∷ [], 2)
unfolding default_factory mev_match_handler get_msg_auction_bid_from_tx get_timeout_height
    get_bundle_info bytes_eq get_bid_info verify_bundle verify_bid_tx match_bundle process_bid
    process_auction verify_tx
taken = refl

process_auction-Taken_example :
    (bid ∷ bundled ∷ bundled ∷ [] ≡ (bid ∷ bundled ∷ []) ++ bundled ∷ [])
    × Taken env factory core 0 (bid ∷ bundled ∷ []) (bundled ∷ []) 2
process_auction-Taken_example =
    process_auction-Taken env factory core 0 (bid ∷ bundled ∷ bundled ∷ []) (bid ∷ bundled ∷ [])
      (bundled ∷ []) 2 taken

abbrev limits : LaneLimits
limits = record { max_tx_bytes = pos 100; max_gas_limit = 100 }

abbrev empty : Proposal
empty = new_proposal (pos 100) 100

-- A bid that the lane refuses, since it does not match, and then one that it takes.
abbrev two_bids : LaneCore ℕ ℤ (List Tx)
two_bids = record core { mempool = bundled ∷ bid ∷ [] }

abbrev reaped : Reaped ℕ
reaped = record { to_include = bid ∷ bundled ∷ []; to_remove = bundled ∷ []; ctx = 2 }

selected : mev_prepare_lane_handler env factory two_bids 0 empty limits ≡ finished reaped
unfolding default_factory mev_match_handler get_msg_auction_bid_from_tx get_timeout_height
    get_bundle_info get_bid_info verify_bundle verify_bid_tx verify_tx mev_prepare_lane_handler
    select_bid try_bid verify_bid_basic sum_bundle get_tx_info contains has_key new_proposal
    add_int64 add_uint64
selected = refl

mev_prepare_lane_handler-IsFirstValid_example :
    (r : Reaped ℕ) × (mev_prepare_lane_handler env factory two_bids 0 empty limits ≡ finished r)
    × IsFirstValid env factory two_bids 0 empty limits (bundled ∷ bid ∷ []) [] r
mev_prepare_lane_handler-IsFirstValid_example =
    mev_prepare_lane_handler-IsFirstValid env factory two_bids 0 empty limits

mev_process_lane_handler-mev_prepare_lane_handler_example :
    mev_process_lane_handler env factory
      (elsewhere env factory two_bids [])
      0
      (bid ∷ bundled ∷ bundled ∷ [])
    ≡ finished (record { from_lane = bid ∷ bundled ∷ []; remaining = bundled ∷ []; ctx = 2 })
mev_process_lane_handler-mev_prepare_lane_handler_example =
    mev_process_lane_handler-mev_prepare_lane_handler env factory two_bids 0 empty limits reaped
      (bundled ∷ []) [] selected (λ e. cc)

abbrev mev_lane : BaseLane ℕ ℤ (List Tx)
mev_lane = record {
  cfg = cfg;
  lane_name = "mev";
  match_handler = mev_match_handler factory;
  prepare_lane_handler = mev_prepare_lane_handler env factory;
  process_lane_handler = mev_process_lane_handler env factory;
}

-- What matches a lane, and the transaction that the factory makes of a bundle.
abbrev Owns : BaseLane ℕ ℤ (List Tx) → Tx → Type 0
Owns lane tx = (lane.match_handler 0 tx ≡ true) ⊎ (tx ≡ bundled)

matched_owned : (c : ℕ) (tx : Tx) → mev_lane.match_handler c tx ≡ true → Owns mev_lane tx
unfolding mev_match_handler
matched_owned c tx matched = inl matched

bundle_owned :
    (bz : Bytes) (tx : Tx) → factory.wrap_bundle_transaction bz ≡ ok tx → Owns mev_lane tx
unfolding default_factory
bundle_owned bz tx wrapped = inr (sym (ok-injective bundled tx wrapped))

mev-IsCoherent_example : IsCoherent env Owns (cfg.tx_encoder) mev_lane
mev-IsCoherent_example =
    mev-IsCoherent env factory Owns (cfg.tx_encoder) mev_lane refl refl refl matched_owned
      bundle_owned

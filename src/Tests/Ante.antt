-- ===== src/Tests/Ante.antt =====
-- x/auction/ante at concrete inputs: a bid of 100 above one of 90, at the height before its timeout.
use block_sdk.Prelude.{
  ◌+◌, ◌≤◌, ◌%◌, ◌^◌, ◌≡◌, refl, String, Bool, true, some, [], ◌∷◌, ℤ, pos, length, Result, ok, err,
  arith, ◌==◌, if◌then◌else◌, wrap_int64, add_int64,
}
use block_sdk.Proposals.{Bytes}
use block_sdk.Sdk.{Tx}
use block_sdk.Auction.{BidInfo}
use block_sdk.Auction.Bid.{extract_bid}
use block_sdk.Mev.Proposal.{bytes_eq}
use block_sdk.Ante.{
  ExecMode, exec_mode_check, other_mode, is_next_height, AnteError, timeout_mismatch, MevLane,
  expected_height, validate_timeout, bid_of, other_bid, top_bid, check_bid_info, ante_handle,
}
use block_sdk.Ante.Accepted.{ante_handle-bounds}
use block_sdk.Tests.Lanes.{tx_of}
use block_sdk.Tests.Auction.{
  State, coin, coin_ops, coin_laws, params, host, before, after, info, program, params_known,
}

abbrev pub bid_tx : Tx
bid_tx = tx_of (1 ∷ []) 10

abbrev pub top_tx : Tx
top_tx = tx_of (1 ∷ 2 ∷ []) 10

abbrev pub top_info : BidInfo
top_info = record info { bid = coin "stake" 90 }

abbrev lane : MevLane State
lane = record {
  get_auction_bid_info = λ tx. ok (some (if length tx.body == 1 then info else top_info));
  get_top_auction_tx = λ s. some top_tx;
}

abbrev pub height : State → ℤ
height s = pos 6

abbrev pub checking : State → ExecMode
checking s = exec_mode_check

abbrev pub encode : Tx → Result String Bytes
encode tx = ok tx.body

abbrev pass : State → Tx → Bool → Result AnteError State
pass s tx simulate = ok s

unfoldable pub ante_program : Unit {0}
unfolding program is_next_height expected_height validate_timeout bid_of other_bid top_bid
    check_bid_info ante_handle bytes_eq wrap_int64 add_int64
ante_program = tt

passes : ante_handle host coin_ops height checking encode lane before bid_tx true pass ≡ ok after
unfolding ante_program
passes = refl

-- In the block itself the timeout has to be the height, and a later one is refused too.
too_late :
    ante_handle host coin_ops height (λ s. other_mode 7) encode lane before bid_tx true pass
    ≡ err (timeout_mismatch (pos 7) (pos 6))
unfolding ante_program
too_late = refl

pub in_mode : is_next_height exec_mode_check ≡ true
unfolding ante_program
in_mode = refl

ante_handle-bounds_example :
    (info.timeout ≡ 6 + 1)
    × (length info.transactions % 2 ^ 32 ≤ params.max_bundle_size)
    × (info.bid.denom ≡ params.reserve_fee.denom)
    × (10 ≤ 100)
    × (90 + 5 ≤ 100)
    × (paid : State) × (extract_bid host coin_ops info.bidder info.bid before ≡ ok paid)
    × (pass paid bid_tx true ≡ ok after)
ante_handle-bounds_example =
    ante_handle-bounds host coin_ops coin_laws height checking encode lane before after bid_tx
      top_tx true pass info top_info (1 ∷ []) (1 ∷ 2 ∷ []) params 6 100 90 10 5 in_mode refl
      (omega arith) refl (omega arith) refl refl refl refl (λ e. cc) params_known refl refl refl
      refl passes

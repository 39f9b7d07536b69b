-- ===== src/Ante/Accepted.antt =====
-- x/auction/ante/ante.go: the bids that `AnteHandle` lets through when it checks a transaction for
-- the mempool.
use block_sdk.Prelude.{
  ℕ, ◌+◌, ◌≤◌, ◌<◌, ◌%◌, ◌^◌, ◌≡◌, ◌≢◌, refl, sym, String, Bool, true, false, Bool-cases, inl, inr,
  some, ℤ, pos, eqb_ℤ, eqb_ℤ→eq, wrap_int64, add_int64_exact, length, Result, ok, >>=-eq-ok,
  map_err-eq-ok, arith,
}
use block_sdk.Proposals.{Bytes}
use block_sdk.Sdk.{Tx}
use block_sdk.Auction.{Params, BidInfo, CoinOps, Host, get_params}
use block_sdk.Auction.Bid.{extract_bid, validate_bid_info}
use block_sdk.Auction.Coins.{CoinLaws}
use block_sdk.Auction.Accepted.{validate_bid_info-bounds}
use block_sdk.Mev.Proposal.{bytes_eq}
use block_sdk.Mev.Accepted.{bytes_eq-eq}
use block_sdk.Ante.{
  ExecMode, is_next_height, AnteError, invalid_bid, MevLane, expected_height, validate_timeout,
  bid_of, other_bid, top_bid, check_bid_info, ante_handle,
}

pos-injective : (m n : ℕ) → pos m ≡ pos n → m ≡ n
pos-injective m n h = cc

-- The cast of a `uint64` to an `int64` gives a height only to that number.
wrap_int64-eq-pos : (t h : ℕ) → t < 2 ^ 64 → h < 2 ^ 63 → wrap_int64 (pos t) ≡ pos h → t ≡ h
unfolding wrap_int64
wrap_int64-eq-pos t h small below e = ground arith

bytes_eq_apart : (a b : Bytes) → a ≢ b → bytes_eq a b ≡ false
bytes_eq_apart a b h = elim (Bool-cases (bytes_eq a b)) [
  | inl same ↦ absurd (h (bytes_eq-eq a b same))
  | inr apart ↦ apart
]

validate_timeout_next :
    {S : Type 0} (block_height : S → ℤ) (exec_mode : S → ExecMode) (ctx : S) (t b : ℕ)
    → is_next_height (exec_mode ctx) ≡ true
    → block_height ctx ≡ pos b
    → b + 1 < 2 ^ 63
    → t < 2 ^ 64
    → validate_timeout block_height exec_mode ctx (wrap_int64 (pos t)) ≡ ok tt
    → t ≡ b + 1
unfolding validate_timeout expected_height
validate_timeout_next block_height exec_mode ctx t b mode height below small h =
    let expected = rw (mode, height, add_int64_exact b 1 below) at h in
    elim (Bool-cases (eqb_ℤ (pos (b + 1)) (wrap_int64 (pos t)))) [
      | inl same ↦
          wrap_int64-eq-pos t (b + 1) small below
            (sym (eqb_ℤ→eq (pos (b + 1)) (wrap_int64 (pos t)) same))
      | inr apart ↦ let broken = rw apart at expected in absurd (ground arith)
    ]

-- the bid of another transaction at the top of the lane
top_bid_other :
    {S : Type 0} (exec_mode : S → ExecMode) (tx_encoder : Tx → Result String Bytes)
    (lane : MevLane S) (ctx : S) (tx top : Tx) (top_info : BidInfo) (bz top_bz : Bytes)
    → is_next_height (exec_mode ctx) ≡ true
    → lane.get_top_auction_tx ctx ≡ some top
    → lane.get_auction_bid_info top ≡ ok (some top_info)
    → tx_encoder tx ≡ ok bz
    → tx_encoder top ≡ ok top_bz
    → top_bz ≢ bz
    → top_bid exec_mode tx_encoder lane ctx tx ≡ ok top_info.bid
unfolding top_bid other_bid bid_of
top_bid_other exec_mode tx_encoder lane ctx tx top top_info bz top_bz mode at_top known encoded
      top_encoded other =
    rw (mode, at_top, other_bid, top_encoded, encoded, bytes_eq_apart top_bz bz other, known) refl

module _ {S LegacyDec : Type 0} (host : Host S LegacyDec) (ops : CoinOps LegacyDec)
    (laws : CoinLaws ops) (block_height : S → ℤ) (exec_mode : S → ExecMode)
    (tx_encoder : Tx → Result String Bytes) (lane : MevLane S) where
  -- In a mode of the next height, at a height `b` below the largest `int64`, where the lane has
  -- another transaction at its top with a bid of `h`, and the parameters and the amounts are known:
  -- a bid that `AnteHandle` lets through has the timeout `b + 1`, a bundle whose number of
  -- transactions modulo 2 ^ 32 is at most the allowed size, the denomination of the reserve fee, at least the reserve fee and at least `h` plus the
  -- increment; the bid is extracted, and the next handler runs on the state after that.
  pub ante_handle-bounds :
      (ctx c : S) (tx top : Tx) (simulate : Bool) (next : S → Tx → Bool → Result AnteError S)
      (info top_info : BidInfo) (bz top_bz : Bytes) (params : Params LegacyDec) (b n h r i : ℕ)
      → is_next_height (exec_mode ctx) ≡ true
      → block_height ctx ≡ pos b
      → b + 1 < 2 ^ 63
      → lane.get_auction_bid_info tx ≡ ok (some info)
      → info.timeout < 2 ^ 64
      → lane.get_top_auction_tx ctx ≡ some top
      → lane.get_auction_bid_info top ≡ ok (some top_info)
      → tx_encoder tx ≡ ok bz
      → tx_encoder top ≡ ok top_bz
      → top_bz ≢ bz
      → get_params host ctx ≡ ok params
      → info.bid.amount ≡ some (pos n)
      → top_info.bid.amount ≡ some (pos h)
      → params.reserve_fee.amount ≡ some (pos r)
      → params.min_bid_increment.amount ≡ some (pos i)
      → ante_handle host ops block_height exec_mode tx_encoder lane ctx tx simulate next ≡ ok c
      → (info.timeout ≡ b + 1)
        × (length info.transactions % 2 ^ 32 ≤ params.max_bundle_size)
        × (info.bid.denom ≡ params.reserve_fee.denom)
        × (r ≤ n)
        × (h + i ≤ n)
        × (paid : S) × (extract_bid host ops info.bidder info.bid ctx ≡ ok paid)
        × (next paid tx simulate ≡ ok c)
  unfolding ante_handle check_bid_info
  ante_handle-bounds ctx c tx top simulate next info top_info bz top_bz params b n h r i mode height
        below known small at_top top_known encoded top_encoded other stored amount top_amount
        reserve increment done =
      let run = rw known at done in
      let (paid, checked, rest) =
        >>=-eq-ok
          (check_bid_info host ops block_height exec_mode tx_encoder lane ctx tx (some info)) _
          run in
      let (_, in_time, checked') =
        >>=-eq-ok (validate_timeout block_height exec_mode ctx (wrap_int64 (pos info.timeout))) _
          checked in
      let validated =
        rw
          (top_bid_other exec_mode tx_encoder lane ctx tx top top_info bz top_bz mode at_top
            top_known encoded top_encoded other)
          at checked' in
      let (size, denoms, fee, more, extracted) =
        validate_bid_info-bounds host ops laws params info top_info.bid n h r i ctx paid stored
          amount top_amount reserve increment
          (map_err-eq-ok invalid_bid (validate_bid_info host ops top_info.bid info ctx)
            validated) in
      (
        validate_timeout_next block_height exec_mode ctx info.timeout b mode height below small
            in_time,
        size,
        denoms,
        fee,
        more,
        paid,
        extracted,
        rest,
      )

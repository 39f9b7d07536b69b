-- ===== src/Auction/Accepted.antt =====
-- x/auction/keeper/auction.go: the bids that `ValidateBidInfo` accepts.
use block_sdk.Prelude.{
  ℕ, ◌+◌, ◌≤◌, ◌%◌, ◌^◌, ◌≡◌, refl, sym, ap, ◌∙◌, subst, String, true, false, not, Bool-cases, inl,
  inr, some, pos, leb, leb→le, length, str_eq, str_eq_iff, ok, ◌>>=◌, >>=-eq-ok, ok-injective,
  guard, guard-eq-ok, arith,
}
use block_sdk.Sdk.{Coin}
use block_sdk.Auction.{
  bundle_too_large, nil_bid, wrong_denom, below_reserve, wrong_increment_denom, bid_too_low, Params,
  BidInfo, CoinOps, Host, get_params,
}
use block_sdk.Auction.Bundle.{validate_bundle_timeouts}
use block_sdk.Auction.Bid.{
  is_nil_coin, check_increment, extract_bid, validate_auction_bid, validate_bid_info, protect,
  or_panic,
}
use block_sdk.Auction.Coins.{CoinLaws}

module _ {S LegacyDec : Type 0} (host : Host S LegacyDec) (ops : CoinOps LegacyDec)
    (laws : CoinLaws ops) where
  has_amount : (coin : Coin) (n : ℕ) → coin.amount ≡ some (pos n) → is_nil_coin coin ≡ false
  unfolding is_nil_coin
  has_amount coin n h = rw h

  -- The end of the check, for the denomination of the sum.
  sum_bound :
      (bid : Coin) (denom : String) (n m : ℕ)
      → bid.denom ≡ denom
      → bid.amount ≡ some (pos n)
      → guard (ops.is_gte bid (record { denom = denom; amount = some (pos m) })) bid_too_low ≡ ok tt
      → m ≤ n
  sum_bound bid denom n m same amount done =
      let gte =
        laws.is_gte_lem bid (record { denom = denom; amount = some (pos m) }) n m same amount
          refl in
      elim (Bool-cases (leb m n)) [
        | inl h ↦ leb→le m n h
        | inr h ↦ let h₀ = rw (gte, h) at done in absurd (ground arith)
      ]

  increment_bound :
      (params : Params LegacyDec) (bid highest : Coin) (n h i : ℕ) (s : S)
      → get_params host s ≡ ok params
      → bid.amount ≡ some (pos n)
      → highest.amount ≡ some (pos h)
      → params.min_bid_increment.amount ≡ some (pos i)
      → check_increment host ops bid highest s ≡ ok tt
      → h + i ≤ n
  unfolding check_increment or_panic
  increment_bound params bid highest n h i s known amount top step done =
      let h₀ = rw (has_amount highest h top, known) at done in
      let increment = params.min_bid_increment in
      let (same, h₁) =
        guard-eq-ok (str_eq increment.denom bid.denom) wrong_increment_denom
          (or_panic (ops.add highest increment) >>= λ min_bid.
            guard (ops.is_gte bid min_bid) bid_too_low)
          h₀ in
      let added = laws.add_lem highest increment h i top step in
      elim (Bool-cases (str_eq highest.denom increment.denom)) [
        | inl e ↦
            let h₂ = rw (added, or_panic, e) at h₁ in
            sum_bound bid highest.denom n (h + i)
              (sym (
                (str_eq_iff highest.denom increment.denom).0 e
                ∙ (str_eq_iff increment.denom bid.denom).0 same))
              amount h₂
        | inr e ↦ let h₂ = rw (added, or_panic, e) at h₁ in absurd (ground arith)
      ]

  auction_bid-bounds :
      (params : Params LegacyDec) (bidder : String) (bid highest : Coin) (n h r i : ℕ) (s s' : S)
      → get_params host s ≡ ok params
      → bid.amount ≡ some (pos n)
      → highest.amount ≡ some (pos h)
      → params.reserve_fee.amount ≡ some (pos r)
      → params.min_bid_increment.amount ≡ some (pos i)
      → validate_auction_bid host ops bidder bid highest s ≡ ok s'
      → (bid.denom ≡ params.reserve_fee.denom)
        × (r ≤ n)
        × (h + i ≤ n)
        × (extract_bid host ops bidder bid s ≡ ok s')
  unfolding validate_auction_bid
  auction_bid-bounds params bidder bid highest n h r i s s' known amount top reserve step done =
      let (_, h₀) = guard-eq-ok (not (is_nil_coin bid)) nil_bid _ done in
      let (p, read, h₁) = >>=-eq-ok (get_params host s) _ h₀ in
      let e : p ≡ params = ok-injective p params (sym read ∙ known) in
      let (same, h₂) = guard-eq-ok (str_eq bid.denom p.reserve_fee.denom) wrong_denom _ h₁ in
      let (enough, h₃) = guard-eq-ok (ops.is_gte bid p.reserve_fee) below_reserve _ h₂ in
      let (_, stepped, h₄) = >>=-eq-ok (check_increment host ops bid highest s) _ h₃ in
      let denoms : bid.denom ≡ params.reserve_fee.denom =
        (str_eq_iff bid.denom p.reserve_fee.denom).0 same
        ∙ ap (λ (q : Params LegacyDec). q.reserve_fee.denom) e in
      let enough' : ops.is_gte bid params.reserve_fee ≡ true =
        subst (λ (q : Params LegacyDec). ops.is_gte bid q.reserve_fee ≡ true) e enough in
      (
        denoms,
        leb→le r n
            (sym (laws.is_gte_lem bid params.reserve_fee n r denoms amount reserve) ∙ enough'),
        increment_bound params bid highest n h i s known amount top step stepped,
        h₄,
      )

  -- Where the parameters are `params` and the amounts of the bid, of the highest bid, of the reserve
  -- fee and of the increment are `n`, `h`, `r` and `i`, a bid that `ValidateBidInfo` accepts has a
  -- bundle whose number of transactions modulo 2 ^ 32 is at most the allowed size, the denomination of the reserve fee, at least the reserve
  -- fee and at least the highest bid plus the increment, and the state after it is that of
  -- `ExtractBid`.
  pub validate_bid_info-bounds :
      (params : Params LegacyDec) (info : BidInfo) (highest : Coin) (n h r i : ℕ) (s s' : S)
      → get_params host s ≡ ok params
      → info.bid.amount ≡ some (pos n)
      → highest.amount ≡ some (pos h)
      → params.reserve_fee.amount ≡ some (pos r)
      → params.min_bid_increment.amount ≡ some (pos i)
      → validate_bid_info host ops highest info s ≡ ok s'
      → (length info.transactions % 2 ^ 32 ≤ params.max_bundle_size)
        × (info.bid.denom ≡ params.reserve_fee.denom)
        × (r ≤ n)
        × (h + i ≤ n)
        × (extract_bid host ops info.bidder info.bid s ≡ ok s')
  unfolding validate_bid_info
  validate_bid_info-bounds params info highest n h r i s s' known amount top reserve step done =
      let h₀ = rw known at done in
      let (size, h₁) =
        guard-eq-ok (leb (length info.transactions % 2 ^ 32) params.max_bundle_size)
          bundle_too_large _ h₀ in
      let (t, paid, h₂) =
        >>=-eq-ok (validate_auction_bid host ops info.bidder info.bid highest s) _ h₁ in
      let (params', _, h₃) = >>=-eq-ok (get_params host t) _ h₂ in
      let (info', _, h₄) =
        >>=-eq-ok (protect host ops params'.front_running_protection info) _ h₃ in
      let (_, _, h₅) = >>=-eq-ok (validate_bundle_timeouts info') _ h₄ in
      let (denoms, within, more, extracted) =
        auction_bid-bounds params info.bidder info.bid highest n h r i s t known amount top reserve
          step paid in
      (
        leb→le (length info.transactions % 2 ^ 32) params.max_bundle_size size,
        denoms,
        within,
        more,
        extracted ∙ ap ok (ok-injective t s' h₅),
      )

-- ===== src/Auction/Extract.antt =====
-- x/auction/keeper/auction.go: where the bid goes that `ExtractBid` takes.
use block_sdk.Prelude.{
  ℕ, ◌+◌, ◌-◌, ◌*◌, ◌/◌, ◌≤◌, ◌≡◌, ◌⊎◌, inl, inr, refl, subst, ap, ◌∙◌, String, Bool-cases, some,
  List, [], ◌∷◌, pos, All, Result, ok, ◌>>=◌, >>=-eq-ok, arith,
}
use block_sdk.Decimal.{precision}
use block_sdk.Sdk.{Coin}
use block_sdk.Auction.{AuctionError, DecCoin, Params, CoinOps, Host, get_params}
use block_sdk.Auction.Bid.{or_panic, send_bid, rewards_of, escrow_of, split_bid, extract_bid}
use block_sdk.Auction.Coins.{
  dec_coins_of, CoinLaws, amount_in, amount_in-coins_of, or_panic-eq-ok, rest-eq,
}

adds_up_one : (a n : ℕ) → a ≡ n → a + 0 ≡ n
adds_up_one a n h = omega arith

adds_up_two : (a b n : ℕ) → a + b ≡ n → a + (b + 0) ≡ n
adds_up_two a b n h = omega arith

adds_up : (n r a b : ℕ) → r ≤ n → a ≡ r → b ≡ n - r → a + b ≡ n
adds_up n r a b within h₁ h₂ = omega arith

module _ {S LegacyDec : Type 0} (host : Host S LegacyDec) (ops : CoinOps LegacyDec)
    (laws : CoinLaws ops) where
  -- Payments of the bidder, one after the other.
  abbrev pub pay_all : String → List (String × List Coin) → S → Result AuctionError S
  pay_all bidder [] s = ok s
  pay_all bidder ((to, coins) ∷ payments) s = do
    s' ← send_bid host ops bidder to coins s
    pay_all bidder payments s'

  abbrev pub paid : String → List (String × List Coin) → ℕ
  paid denom [] = 0
  paid denom ((to, coins) ∷ payments) = amount_in denom coins + paid denom payments

  -- The payments sum to the bid, and go to the escrow account or to the rewards address.
  pub record IsPaid (params : Params LegacyDec) (bidder denom : String) (n : ℕ) (s s' : S)
      : Type 0 where
    pub payments : List (String × List Coin)
    pub made : pay_all bidder payments s ≡ ok s'
    pub in_full : paid denom payments ≡ n
    pub recipients :
        All
          (λ (p : String × List Coin).
            (p.0 ≡ escrow_of params) ⊎ (p.0 ≡ rewards_of host ops params s))
          payments

  pay_one :
      (params : Params LegacyDec) (bidder : String) (bid : Coin) (n : ℕ) (s s' : S)
      → bid.amount ≡ some (pos n)
      → (or_panic (ops.new_coins bid) >>= λ coins.
          send_bid host ops bidder (escrow_of params) coins s)
        ≡ ok s'
      → IsPaid params bidder bid.denom n s s'
  pay_one params bidder bid n s s' amount done =
      let (coins, made, sent) = >>=-eq-ok (or_panic (ops.new_coins bid)) _ done in
      let known =
        laws.new_coins_lem bid n coins amount (or_panic-eq-ok (ops.new_coins bid) coins made) in
      record {
        payments = (escrow_of params, coins) ∷ [];
        made = rw sent;
        in_full =
            adds_up_one (amount_in bid.denom coins) n
              (ap (amount_in bid.denom) known ∙ amount_in-coins_of bid.denom n);
        recipients = (inl refl, tt);
      }

  two_payments :
      (bidder a b : String) (first second : List Coin) (s s₁ s' : S)
      → send_bid host ops bidder a first s ≡ ok s₁
      → send_bid host ops bidder b second s₁ ≡ ok s'
      → pay_all bidder ((a, first) ∷ (b, second) ∷ []) s ≡ ok s'
  two_payments bidder a b first second s s₁ s' h₁ h₂ = rw (h₁, h₂)

  -- Where no operation of the branch for a proposer fee panics, what the proposer gets and what is
  -- left for the escrow account sum to the bid.
  parts_sum :
      (bid : Coin) (n u : ℕ) (fee : LegacyDec)
      (dec_bid product dec_reward total : List (DecCoin LegacyDec)) (reward rest : List Coin)
      → bid.amount ≡ some (pos n)
      → laws.units fee ≡ pos u
      → ops.new_dec_coins_from_coins (bid ∷ []) ≡ some dec_bid
      → ops.mul_dec_truncate dec_bid fee ≡ some product
      → ops.truncate_decimal product ≡ some reward
      → ops.new_dec_coins_from_coins reward ≡ some dec_reward
      → ops.sub_dec dec_bid dec_reward ≡ some total
      → ops.truncate_decimal total ≡ some rest
      → amount_in bid.denom reward + amount_in bid.denom rest ≡ n
  parts_sum bid n u fee dec_bid product dec_reward total reward rest amount share o₁ o₂ o₃ o₄ o₅
        o₆ =
      let d = bid.denom in
      let e₁ = laws.new_dec_coins_one bid n dec_bid amount o₁ in
      let e₂ =
        laws.mul_dec_truncate_lem d (n * precision) u fee product share
          (subst (λ x. ops.mul_dec_truncate x fee ≡ some product) e₁ o₂) in
      let e₃ =
        laws.truncate_decimal_lem d (u * (n * precision) / precision) reward
          (subst (λ x. ops.truncate_decimal x ≡ some reward) e₂ o₃) in
      let r = u * (n * precision) / precision / precision in
      let e₄ =
        laws.new_dec_coins_lem d r dec_reward
          (subst (λ x. ops.new_dec_coins_from_coins x ≡ some dec_reward) e₃ o₄) in
      let (le, e₅) = laws.sub_dec_lem d (n * precision) (r * precision) total (
        subst (λ x. ops.sub_dec x (dec_coins_of laws.decimal d (r * precision)) ≡ some total) e₁
          (subst (λ x. ops.sub_dec dec_bid x ≡ some total) e₄ o₅)) in
      let e₆ =
        laws.truncate_decimal_lem d (n * precision - r * precision) rest
          (subst (λ x. ops.truncate_decimal x ≡ some rest) e₅ o₆) in
      let (within, left) = rest-eq n r le in
      adds_up n r (amount_in d reward) (amount_in d rest) within
        (ap (amount_in d) e₃ ∙ amount_in-coins_of d r)
        (ap (amount_in d) e₆
          ∙ amount_in-coins_of d ((n * precision - r * precision) / precision)
          ∙ left)

  pay_two :
      (params : Params LegacyDec) (bidder : String) (bid : Coin) (n u : ℕ) (s s' : S)
      → bid.amount ≡ some (pos n)
      → laws.units params.proposer_fee ≡ pos u
      → split_bid host ops params bidder bid s ≡ ok s'
      → IsPaid params bidder bid.denom n s s'
  unfolding split_bid
  pay_two params bidder bid n u s s' amount fee done =
      let d = bid.denom in
      let (dec_bid, o₁, h₁) =
        >>=-eq-ok (or_panic (ops.new_dec_coins_from_coins (bid ∷ []))) _ done in
      let (product, o₂, h₂) =
        >>=-eq-ok (or_panic (ops.mul_dec_truncate dec_bid params.proposer_fee)) _ h₁ in
      let (reward, o₃, h₃) = >>=-eq-ok (or_panic (ops.truncate_decimal product)) _ h₂ in
      let (s₁, first, h₄) =
        >>=-eq-ok (send_bid host ops bidder (rewards_of host ops params s) reward s) _ h₃ in
      let (dec_reward, o₄, h₅) = >>=-eq-ok (or_panic (ops.new_dec_coins_from_coins reward)) _ h₄ in
      let (total, o₅, h₆) = >>=-eq-ok (or_panic (ops.sub_dec dec_bid dec_reward)) _ h₅ in
      let (rest, o₆, second) = >>=-eq-ok (or_panic (ops.truncate_decimal total)) _ h₆ in
      let sum : amount_in d reward + amount_in d rest ≡ n =
        parts_sum bid n u params.proposer_fee dec_bid product dec_reward total reward rest amount
          fee (or_panic-eq-ok _ _ o₁) (or_panic-eq-ok _ _ o₂) (or_panic-eq-ok _ _ o₃)
          (or_panic-eq-ok _ _ o₄) (or_panic-eq-ok _ _ o₅) (or_panic-eq-ok _ _ o₆) in
      record {
        payments = (rewards_of host ops params s, reward) ∷ (escrow_of params, rest) ∷ [];
        made =
            two_payments bidder (rewards_of host ops params s) (escrow_of params) reward rest s s₁
              s' first second;
        in_full = adds_up_two (amount_in d reward) (amount_in d rest) n sum;
        recipients = (inr refl, (inl refl, tt));
      }

  -- For a bid that is not negative and a proposer fee that is not negative, an `ExtractBid` that
  -- succeeds has made payments of the bidder, to the escrow account or to the rewards address, that
  -- sum to the bid in its denomination: nothing is lost by rounding.
  pub extract_bid-IsPaid :
      (params : Params LegacyDec) (bidder : String) (bid : Coin) (n u : ℕ) (s s' : S)
      → get_params host s ≡ ok params
      → bid.amount ≡ some (pos n)
      → laws.units params.proposer_fee ≡ pos u
      → extract_bid host ops bidder bid s ≡ ok s'
      → IsPaid params bidder bid.denom n s s'
  unfolding extract_bid
  extract_bid-IsPaid params bidder bid n u s s' known amount fee done =
      let h = rw known at done in
      elim (Bool-cases (ops.is_zero_fee params.proposer_fee)) [
        | inl free ↦ pay_one params bidder bid n s s' amount (rw free at h)
        | inr charged ↦ pay_two params bidder bid n u s s' amount fee (rw charged at h)
      ]

-- ===== src/Auction/Bundle/Aliasing.antt =====
-- x/auction/keeper/auction.go: `ValidateAuctionBundle` filters the map of signers that
-- `ValidateBundleTimeouts` reads.
use block_sdk.Prelude.{
  ℕ, ◌≡◌, ◌≢◌, refl, String, true, false, Bool-cases, inl, inr, List, [], ◌∷◌, ok, err, has_key,
  str_eq, str_eq_iff, ◌==◌, ==_iff, arith,
}
use block_sdk.Auction.{wrong_timeout}
use block_sdk.Auction.Bundle.{
  filter_signers, check_signers, signers_round, validate_auction_bundle, check_timeouts,
}

-- A bundle whose first transaction the bidder signs with another signer, and whose second that
-- signer signs alone, passes the protection, and then the check of the timeouts whatever the timeout
-- of the first transaction is; without the protection the check refuses a timeout other than that
-- of the bid.
pub check_timeouts_skipped :
    (bidder other : String) (timeout t₀ t₁ : ℕ)
    → other ≢ bidder
    → t₀ ≢ timeout
    → (after : List (List String)) × (validate_auction_bundle bidder
          ((bidder ∷ other ∷ []) ∷ (other ∷ []) ∷ [])
        ≡ ok after)
      × (check_timeouts bidder timeout (t₀ ∷ t₁ ∷ []) after ≡ ok tt)
      × (check_timeouts bidder timeout (t₀ ∷ t₁ ∷ []) ((bidder ∷ other ∷ []) ∷ (other ∷ []) ∷ [])
          ≡ err wrong_timeout)
unfolding validate_auction_bundle check_signers signers_round filter_signers check_timeouts has_key
check_timeouts_skipped bidder other timeout t₀ t₁ differ late =
    let self : str_eq other other ≡ true = (str_eq_iff other other).1 refl in
    let self_b : str_eq bidder bidder ≡ true = (str_eq_iff bidder bidder).1 refl in
    let late' : (t₀ == timeout) ≡ false = ground (arith, ==_iff t₀ timeout) in
    elim (Bool-cases (str_eq other bidder)) [
      | inl same ↦ absurd (differ ((str_eq_iff other bidder).0 same))
      | inr d ↦ ((other ∷ []) ∷ (other ∷ []) ∷ [], rw (self_b, d, self), rw d, rw (self_b, late'))
    ]

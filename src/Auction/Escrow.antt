-- ===== src/Auction/Escrow.antt =====
-- x/auction: `ExtractBid` of the keeper that `NewKeeper` makes, with the rewards address of the
-- proposer.
use block_sdk.Prelude.{
  ℕ, ◌≡◌, ◌⊎◌, refl, sym, ap, ◌∙◌, subst, inl, inr, String, Bool, Bool-cases, Option, none, some,
  List, [], ◌∷◌, pos, All, Result, Result-cases, ok, err, >>=-eq-ok,
}
use block_sdk.Sdk.{Coin}
use block_sdk.Auction.{Params, CoinOps, Host, get_params}
use block_sdk.Auction.Bid.{rewards_of, escrow_of, extract_bid}
use block_sdk.Auction.Coins.{CoinLaws}
use block_sdk.Auction.Extract.{IsPaid, extract_bid-IsPaid}
use block_sdk.Auction.Keeper.{keeper_with, new_keeper_with_rewards_address_provider, new_keeper}
use block_sdk.Auction.Rewards.{ProposerKeepers, PrefixLaws, proposer_rewards_address}

module _ {S : Type 0} (keepers : ProposerKeepers S) (prefixes : PrefixLaws keepers) where
  -- The provider never answers with an address.
  proposer_rewards_address_fails :
      (ctx : S) → (e : String) × (proposer_rewards_address keepers ctx ≡ err e)
  unfolding proposer_rewards_address
  proposer_rewards_address_fails ctx = elim (Result-cases (proposer_rewards_address keepers ctx)) [
    | inr failed ↦ failed
    | inl (address, done) ↦
        let (cons_addr, _, rest) = >>=-eq-ok (keepers.previous_proposer_cons_addr ctx) _ done in
        let (operator, found, read) =
          >>=-eq-ok (keepers.operator_by_cons_addr ctx cons_addr) _ rest in
        absurd (
          prefixes.kinds_differ (
            sym (prefixes.from_bech32_lem operator address read)
            ∙ prefixes.operator_lem ctx cons_addr operator found))
  ]

some_host : {A : Type 0} (a b : A) → some a ≡ some b → a ≡ b
some_host a b h = cc

module _ {S LegacyDec : Type 0} (is_address : String → Bool) (base : Host S LegacyDec)
    (keepers : ProposerKeepers S) where
  keeper_provider :
      (module_address : Option String) (provider : S → Result String String) (authority : String)
      (host : Host S LegacyDec)
      → keeper_with is_address base module_address provider authority ≡ some host
      → provider ≡ host.get_rewards_address
  unfolding keeper_with
  keeper_provider none provider authority host made = cc
  keeper_provider (some a) provider authority host made =
      ap (λ (h : Host S LegacyDec). h.get_rewards_address) (some_host _ host made)

  new_keeper_provider :
      (module_address : Option String) (authority : String) (host : Host S LegacyDec)
      → new_keeper is_address base module_address keepers authority ≡ some host
      → proposer_rewards_address keepers ≡ host.get_rewards_address
  unfolding new_keeper new_keeper_with_rewards_address_provider
  new_keeper_provider module_address authority host made =
      elim (Bool-cases (is_address authority)) [
        | inl valid ↦
            keeper_provider module_address (proposer_rewards_address keepers) authority host
              (rw valid at made)
        | inr bad ↦ absurd (let none_made = rw bad at made in cc)
      ]

  rewards_fall_back :
      (prefixes : PrefixLaws keepers) (host : Host S LegacyDec) (ops : CoinOps LegacyDec)
      (params : Params LegacyDec) (ctx : S)
      → proposer_rewards_address keepers ≡ host.get_rewards_address
      → rewards_of host ops params ctx ≡ escrow_of params
  unfolding rewards_of
  rewards_fall_back prefixes host ops params ctx same =
      let (e, failed) = proposer_rewards_address_fails keepers prefixes ctx in
      let failed' = subst (λ (p : S → Result String String). p ctx ≡ err e) same failed in
      rw (failed', rewards_of) refl

  to_escrow :
      (host : Host S LegacyDec) (ops : CoinOps LegacyDec) (params : Params LegacyDec) (ctx : S)
      (payments : List (String × List Coin))
      → rewards_of host ops params ctx ≡ escrow_of params
      → All
          (λ (p : String × List Coin).
            (p.0 ≡ escrow_of params) ⊎ (p.0 ≡ rewards_of host ops params ctx))
          payments
      → All (λ (p : String × List Coin). p.0 ≡ escrow_of params) payments
  to_escrow host ops params ctx [] same h = tt
  to_escrow host ops params ctx (p ∷ payments) same h =
      let rest = to_escrow host ops params ctx payments same h.1 in
      elim h.0 [ inl escrow ↦ (escrow, rest) | inr proposer ↦ (proposer ∙ same, rest) ]

  -- Where the texts of addresses start with a prefix that tells accounts from validators, as the SDK
  -- documents: for a bid that is not negative and a proposer fee that is not negative, an `ExtractBid` of
  -- the keeper that `NewKeeper` returns, if it succeeds, has paid the bid in full to the escrow
  -- account, and nothing to another one, whatever the fee is.
  pub extract_bid-escrow_of :
      PrefixLaws keepers
      → (ops : CoinOps LegacyDec) (laws : CoinLaws ops) (module_address : Option String)
        (authority : String) (host : Host S LegacyDec) (params : Params LegacyDec) (bidder : String)
        (bid : Coin) (n u : ℕ) (s s' : S)
      → new_keeper is_address base module_address keepers authority ≡ some host
      → get_params host s ≡ ok params
      → bid.amount ≡ some (pos n)
      → laws.units params.proposer_fee ≡ pos u
      → extract_bid host ops bidder bid s ≡ ok s'
      → (p : IsPaid host ops laws params bidder bid.denom n s s') × All
          (λ (q : String × List Coin). q.0 ≡ escrow_of params)
          p.payments
  extract_bid-escrow_of prefixes ops laws module_address authority host params bidder bid n u s s'
        made known amount fee done =
      let p = extract_bid-IsPaid host ops laws params bidder bid n u s s' known amount fee done in
      let same =
        rewards_fall_back prefixes host ops params s
          (new_keeper_provider module_address authority host made) in
      (p, to_escrow host ops params s p.payments same p.recipients)

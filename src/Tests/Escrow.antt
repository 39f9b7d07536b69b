-- ===== src/Tests/Escrow.antt =====
-- x/auction at concrete inputs: a keeper of `NewKeeper` with a proposer fee of a quarter.
use block_sdk.Prelude.{
  ◌/◌, ◌≡◌, ◌≢◌, refl, sym, ◌∙◌, ap, String, Bool, true, some, none, List, [], ◌∷◌, ℤ, All, ok, err,
  str_eq, str_eq_iff, ok-injective, if◌then◌else◌, inl, inr, Bool-cases,
}
use block_sdk.Decimal.{precision}
use block_sdk.Sdk.{Coin}
use block_sdk.Auction.{Host, get_params}
use block_sdk.Auction.Bid.{escrow_of, extract_bid}
use block_sdk.Auction.Escrow.{extract_bid-escrow_of}
use block_sdk.Auction.Extract.{IsPaid}
use block_sdk.Auction.Keeper.{keeper_with, new_keeper_with_rewards_address_provider, new_keeper}
use block_sdk.Auction.Rewards.{
  ProposerKeepers, PrefixLaws, proposer_rewards_address, fixed_rewards_address,
}
use block_sdk.Tests.Auction.{State, coin, coin_ops, coin_laws, params, host, before, program}

abbrev prefix : String → String
prefix text = if str_eq text "acc1x" then "acc" else "val"

abbrev keepers : ProposerKeepers State
keepers = record {
  previous_proposer_cons_addr = λ s. ok "cons1x";
  operator_by_cons_addr = λ s cons_addr. ok "val1x";
  acc_address_from_bech32 = λ text. if str_eq text "acc1x" then ok "x" else err "prefix";
}

acc-val : ◌≢◌ {A = String} "acc" "val"
unfolding str_eq
acc-val e = let h = (str_eq_iff "acc" "val").1 e in cc

prefix_known : prefix "val1x" ≡ "val"
unfolding str_eq
prefix_known = refl

account_prefix_lem :
    (text address : String)
    → keepers.acc_address_from_bech32 text ≡ ok address
    → prefix text ≡ "acc"
account_prefix_lem text address h = elim (Bool-cases (str_eq text "acc1x")) [
  | inl same ↦ rw same refl
  | inr other ↦ absurd (let refused = rw other at h in cc)
]

prefix_laws : PrefixLaws keepers
prefix_laws = record {
  prefix_of = prefix;
  account_prefix = "acc";
  validator_prefix = "val";
  kinds_differ = acc-val;
  operator_lem =
      λ s cons_addr operator h. ap prefix (sym (ok-injective "val1x" operator h)) ∙ prefix_known;
  from_bech32_lem = account_prefix_lem;
}

abbrev any_address : String → Bool
any_address text = true

abbrev made : Host State ℤ
made = record host {
  module_address = "auction";
  get_rewards_address = proposer_rewards_address keepers;
  authority = "gov";
}

keeper_made : new_keeper any_address host (some "auction") keepers "gov" ≡ some made
unfolding new_keeper new_keeper_with_rewards_address_provider keeper_with
keeper_made = refl

-- without the module account
no_account : new_keeper any_address host none keepers "gov" ≡ none
unfolding new_keeper new_keeper_with_rewards_address_provider keeper_with
no_account = refl

empty_refused : fixed_rewards_address {S = State} "" before ≡ err "rewards address is empty"
unfolding fixed_rewards_address str_eq
empty_refused = refl

abbrev all_escrow : State
all_escrow = (1 ∷ [], ("escrow", 75) ∷ ("escrow", 25) ∷ [])

params_read : get_params made before ≡ ok params
unfolding program
params_read = refl

escrowed : extract_bid made coin_ops "bob" (coin "stake" 100) before ≡ ok all_escrow
unfolding program proposer_rewards_address
escrowed = refl

extract_bid-escrow_of_example :
    (p : IsPaid made coin_ops coin_laws params "bob" "stake" 100 before all_escrow) × All
      (λ (q : String × List Coin). q.0 ≡ escrow_of params)
      p.payments
extract_bid-escrow_of_example =
    extract_bid-escrow_of any_address host keepers prefix_laws coin_ops coin_laws (some "auction")
      "gov" made params "bob" (coin "stake" 100) 100 (precision / 4) before all_escrow keeper_made
      params_read refl refl escrowed

-- ===== src/Auction.antt =====
-- x/auction: the parameters (types/params.go), the information on a bid (types/bid_info.go), the
-- keepers that the module calls (types/expected_keepers.go) and the keeper's access to its
-- parameters (keeper/keeper.go).
pub mod Bundle
pub mod Bid
pub mod Server
pub mod Coins
pub mod Extract
pub mod Accepted
pub mod Rewards
pub mod Keeper
pub mod Escrow
pub mod Genesis
use block_sdk.Prelude.{
  ℕ, String, Bool, Option, none, some, List, [], ◌∷◌, ℤ, Result, ok, err, ◌>>=◌, map_err,
}
use block_sdk.Proposals.{Bytes}
use block_sdk.Sdk.{Coin}

-- One constructor for each error of the module; `panicked` is a panic.
pub data AuctionError : Type 0 where
  sdk_error : String → AuctionError
  no_params invalid_address empty_bundle empty_transaction nil_escrow zero_increment : AuctionError
  mismatched_denoms invalid_fee : AuctionError
  bundle_too_large nil_bid wrong_denom below_reserve wrong_increment_denom bid_too_low :
      AuctionError
  front_running wrong_timeout not_authority panicked : AuctionError

-- `types.Params`; a nil escrow address is `none`.
pub record Params (LegacyDec : Type 0) : Type 0 where
  pub max_bundle_size : ℕ
  pub escrow_account_address : Option String
  pub reserve_fee : Coin
  pub min_bid_increment : Coin
  pub front_running_protection : Bool
  pub proposer_fee : LegacyDec

-- `map[string]struct{}`: the keys
abbrev pub Signers : Type 0
Signers = List String

-- `types.BidInfo`
pub record BidInfo : Type 0 where
  pub bidder : String
  pub bid : Coin
  pub transactions : List Bytes
  pub timeout : ℕ
  pub signers : List Signers
  pub transaction_timeouts : List ℕ

-- `sdk.DecCoin`
pub record DecCoin (LegacyDec : Type 0) : Type 0 where
  pub denom : String
  pub amount : LegacyDec

-- The operations of the SDK on coins and decimal coins that the module calls, where `none` is a
-- panic; of `TruncateDecimal` the coins, which is what the module keeps.
pub record CoinOps (LegacyDec : Type 0) : Type 0 where
  pub is_gte : Coin → Coin → Bool
  pub add : Coin → Coin → Option Coin
  pub is_zero_fee : LegacyDec → Bool
  pub new_coins : Coin → Option (List Coin)
  pub new_dec_coins_from_coins : List Coin → Option (List (DecCoin LegacyDec))
  pub mul_dec_truncate : List (DecCoin LegacyDec) → LegacyDec → Option (List (DecCoin LegacyDec))
  pub truncate_decimal : List (DecCoin LegacyDec) → Option (List Coin)
  pub sub_dec :
      List (DecCoin LegacyDec) → List (DecCoin LegacyDec) → Option (List (DecCoin LegacyDec))

-- What the keeper calls: its store under `KeyParams` with the generated codec of the parameters,
-- and the keepers of the other modules. `S` is the state behind a context.
pub record Host (S LegacyDec : Type 0) : Type 0 where
  pub get : S → Bytes
  pub set : Bytes → S → S
  pub marshal : Params LegacyDec → Result String Bytes
  pub unmarshal : Bytes → Result String (Params LegacyDec)
  pub module_address : String
  pub send_coins : String → String → List Coin → S → Result String S
  pub send_coins_to_module : String → List Coin → S → Result String S
  pub get_rewards_address : S → Result String String
  pub authority : String

module _ {S LegacyDec : Type 0} (host : Host S LegacyDec) where
  -- `GetParams`
  unfoldable pub get_params : S → Result AuctionError (Params LegacyDec)
  get_params s = elim (host.get s) [
    | [] ↦ err no_params
    | b ∷ bs ↦ map_err sdk_error (host.unmarshal (b ∷ bs))
  ]

  -- `SetParams`
  unfoldable pub set_params : Params LegacyDec → S → Result AuctionError S
  set_params params s = do bz ← map_err sdk_error (host.marshal params); ok (host.set bz s)

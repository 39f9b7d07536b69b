-- ===== src/Auction/Keeper.antt =====
-- x/auction/keeper/keeper.go: the constructors of the keeper and its getters.
use block_sdk.Prelude.{ℕ, String, Bool, Option, none, some, Result, ok, ◌>>=◌, if◌then◌else◌}
use block_sdk.Sdk.{Coin}
use block_sdk.Auction.{AuctionError, Host, get_params}
use block_sdk.Auction.Rewards.{ProposerKeepers, proposer_rewards_address}

module _ {S LegacyDec : Type 0} (is_address : String → Bool) (base : Host S LegacyDec) where
  -- The end of `NewKeeperWithRewardsAddressProvider`, by the address of the module account: a keeper
  -- is what it calls. `base` holds the store, the codec and the bank; `none` is a panic.
  unfoldable pub keeper_with :
      Option String → (S → Result String String) → String → Option (Host S LegacyDec)
  keeper_with none provider authority = none
  keeper_with (some module_address) provider authority = some (record base {
    module_address = module_address;
    get_rewards_address = provider;
    authority = authority;
  })

  -- `NewKeeperWithRewardsAddressProvider`
  unfoldable pub new_keeper_with_rewards_address_provider :
      Option String → (S → Result String String) → String → Option (Host S LegacyDec)
  new_keeper_with_rewards_address_provider module_address provider authority =
      if is_address authority then keeper_with module_address provider authority else none

  -- `NewKeeper`
  unfoldable pub new_keeper : Option String → ProposerKeepers S → String → Option (Host S LegacyDec)
  new_keeper module_address keepers authority =
      new_keeper_with_rewards_address_provider module_address (proposer_rewards_address keepers)
        authority

module _ {S LegacyDec : Type 0} (host : Host S LegacyDec) where
  -- `GetMaxBundleSize`
  unfoldable pub get_max_bundle_size : S → Result AuctionError ℕ
  get_max_bundle_size s = do params ← get_params host s; ok params.max_bundle_size

  -- `GetEscrowAccount`
  unfoldable pub get_escrow_account : S → Result AuctionError (Option String)
  get_escrow_account s = do params ← get_params host s; ok params.escrow_account_address

  -- `GetReserveFee`
  unfoldable pub get_reserve_fee : S → Result AuctionError Coin
  get_reserve_fee s = do params ← get_params host s; ok params.reserve_fee

  -- `GetMinBidIncrement`
  unfoldable pub get_min_bid_increment : S → Result AuctionError Coin
  get_min_bid_increment s = do params ← get_params host s; ok params.min_bid_increment

  -- `GetProposerFee`
  unfoldable pub get_proposer_fee : S → Result AuctionError LegacyDec
  get_proposer_fee s = do params ← get_params host s; ok params.proposer_fee

  -- `FrontRunningProtectionEnabled`
  unfoldable pub front_running_protection_enabled : S → Result AuctionError Bool
  front_running_protection_enabled s = do
    params ← get_params host s
    ok params.front_running_protection

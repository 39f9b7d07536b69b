-- ===== src/Auction/Rewards.antt =====
-- x/auction/rewards: the two providers of the rewards address (fixed_provider.go,
-- proposer_provider.go).
use block_sdk.Prelude.{String, Result, ok, err, ◌>>=◌, str_eq, ◌≡◌, ◌≢◌, if◌then◌else◌}

-- `FixedAddressRewardsAddressProvider.GetRewardsAddress`; an address is empty as its text is.
unfoldable pub fixed_rewards_address : {S : Type 0} → String → S → Result String String
fixed_rewards_address rewards_address ctx =
    if str_eq rewards_address "" then err "rewards address is empty" else ok rewards_address

-- What the other provider calls: `GetPreviousProposerConsAddr` of the distribution keeper,
-- `GetValidatorByConsAddr` of the staking keeper with `GetOperator` of the validator, and
-- `AccAddressFromBech32` of the SDK.
pub record ProposerKeepers (S : Type 0) : Type 0 where
  pub previous_proposer_cons_addr : S → Result String String
  pub operator_by_cons_addr : S → String → Result String String
  pub acc_address_from_bech32 : String → Result String String

-- `ProposerRewardsAddressProvider.GetRewardsAddress`
unfoldable pub proposer_rewards_address :
    {S : Type 0} → ProposerKeepers S → S → Result String String
proposer_rewards_address keepers ctx = do
  prev_prop_cons_addr ← keepers.previous_proposer_cons_addr ctx
  operator ← keepers.operator_by_cons_addr ctx prev_prop_cons_addr
  keepers.acc_address_from_bech32 operator

-- Documented behaviour of the SDK: the texts of addresses start with a prefix that tells their kind;
-- the operator of a validator has the prefix of validators, and `AccAddressFromBech32` refuses a text
-- that has not the prefix of accounts.
pub record PrefixLaws {S : Type 0} (keepers : ProposerKeepers S) : Type 0 where
  pub prefix_of : String → String
  pub account_prefix : String
  pub validator_prefix : String
  pub kinds_differ : account_prefix ≢ validator_prefix
  pub operator_lem :
      (ctx : S) (cons_addr operator : String)
      → keepers.operator_by_cons_addr ctx cons_addr ≡ ok operator
      → prefix_of operator ≡ validator_prefix
  pub from_bech32_lem :
      (text address : String)
      → keepers.acc_address_from_bech32 text ≡ ok address
      → prefix_of text ≡ account_prefix

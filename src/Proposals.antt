-- ===== src/Proposals.antt =====
-- block/proposals: the proposal, its limits (proposals.go, utils.go) and its update (update.go);
-- `TxWithInfo` of block/utils/utils.go.
pub mod Totals
pub mod Effect
pub mod Bounds
pub mod Limits
pub mod Overflow
pub mod Room
pub mod Update
use block_sdk.Prelude.{
  ℕ, ◌-◌, ◌^◌, String, Bool, List, [], ℤ, pos, negsuc, leb, ltb_ℤ, if◌then◌else◌, sub_int64,
  has_key,
}
use block_sdk.Decimal.{DecOps}

abbrev pub Bytes : Type 0
Bytes = List ℕ

-- adapters/signer_extraction_adapter
pub record SignerData : Type 0 where
  pub signer : String
  pub sequence : ℕ

-- The `Priority` field is only logged, and is left out.
pub record TxWithInfo : Type 0 where
  pub hash : String
  pub size : ℤ
  pub gas_limit : ℕ
  pub tx_bytes : Bytes
  pub signers : List SignerData

-- `types.ProposalInfo`
pub record ProposalInfo : Type 0 where
  pub txs_by_lane : List (String × ℕ)
  pub max_block_size : ℤ
  pub max_gas_limit : ℕ
  pub block_size : ℤ
  pub gas_limit : ℕ

pub record Proposal : Type 0 where
  pub txs : List Bytes
  -- the keys of the map `Cache`
  pub cache : List String
  pub info : ProposalInfo

pub record LaneLimits : Type 0 where
  pub max_tx_bytes : ℤ
  pub max_gas_limit : ℕ

unfoldable pub new_proposal : ℤ → ℕ → Proposal
new_proposal max_block_size max_gas_limit = record {
  txs = [];
  cache = [];
  info = record {
    txs_by_lane = [];
    max_block_size = max_block_size;
    max_gas_limit = max_gas_limit;
    block_size = pos 0;
    gas_limit = 0;
  };
}

-- `ctx.ConsensusParams().Block`
pub record BlockParams : Type 0 where
  pub max_bytes : ℤ
  pub max_gas : ℤ

abbrev pub max_uint64 : ℕ
max_uint64 = 2 ^ 64 - 1

-- `uint64(maxGas)` at a positive `int64`
gas_cast : ℤ → ℕ
gas_cast (pos n) = n
gas_cast (negsuc n) = max_uint64 - n

unfoldable pub get_block_limits : BlockParams → ℤ × ℕ
unfolding gas_cast
get_block_limits block =
    (block.max_bytes, if ltb_ℤ (pos 0) block.max_gas then gas_cast block.max_gas else max_uint64)

unfoldable pub new_proposal_with_context : BlockParams → Proposal
unfolding new_proposal get_block_limits
new_proposal_with_context block =
    let (max_block_size, max_gas_limit) = get_block_limits block in
    new_proposal max_block_size max_gas_limit

-- `_, ok := p.Cache[txHash]`
unfoldable pub contains : Proposal → String → Bool
contains p hash = has_key hash p.cache

module _ {LegacyDec : Type 0} (ops : DecOps LegacyDec) where
  -- the branch of `GetLaneLimits` for a ratio of zero: what is left of the block
  remaining_limits : ProposalInfo → LaneLimits
  remaining_limits info = record {
    max_tx_bytes =
        let left = sub_int64 info.max_block_size info.block_size in
        if ltb_ℤ left (pos 0) then pos 0 else left;
    max_gas_limit =
        if leb info.max_gas_limit info.gas_limit then 0 else info.max_gas_limit - info.gas_limit;
  }

  unfoldable pub get_lane_limits : Proposal → LegacyDec → LaneLimits
  unfolding remaining_limits
  get_lane_limits p ratio = if ops.is_zero ratio then remaining_limits p.info else record {
    max_tx_bytes = ops.mul_int64 ratio p.info.max_block_size;
    max_gas_limit = ops.mul_uint64 ratio p.info.max_gas_limit;
  }

-- ===== src/Mempool.antt =====
-- block/mempool.go: `LanedMempool`; `FindLane` of block/lane.go; `IgnoreDecorator` of block/ante.go.
pub mod Registry
pub mod Distribution
pub mod Removal
use block_sdk.Prelude.{
  ℕ, ◌+◌, String, Bool, true, false, not, ◌&&◌, Option, none, some, List, [], ◌∷◌, ℤ, str_eq,
  has_key, Result, ok, err, ◌>>=◌, ◌>>◌, guard, insert, if◌then◌else◌,
}
use block_sdk.Decimal.{DecOps}
use block_sdk.Sdk.{Tx}
use block_sdk.Base.{Env}
use block_sdk.Base.Lane.{BaseLane, set_pool}

pub data RegistryError : Type 0 where
  no_lanes second_unlimited too_much_space unused_space : RegistryError
  duplicate_name : String → RegistryError

module _ {Ctx LegacyDec M : Type 0} (env : Env Ctx LegacyDec M) where
  -- `CountTx`
  unfoldable pub count_tx_of : List (BaseLane Ctx LegacyDec M) → (String → M) → ℕ
  count_tx_of [] pools = 0
  count_tx_of (lane ∷ lanes) pools =
      env.pool.count_tx (pools lane.lane_name) + count_tx_of lanes pools

  -- `GetTxDistribution`: the counts are written one after the other.
  unfoldable pub get_tx_distribution :
      List (BaseLane Ctx LegacyDec M) → (String → M) → List (String × ℕ) → List (String × ℕ)
  get_tx_distribution [] pools counts = counts
  get_tx_distribution (lane ∷ lanes) pools counts =
      get_tx_distribution lanes pools
        (insert lane.lane_name (env.pool.count_tx (pools lane.lane_name)) counts)

  -- `Insert`: the first lane that matches; a transaction that no lane matches is dropped.
  unfoldable pub insert_tx :
      List (BaseLane Ctx LegacyDec M) → Ctx → Tx → (String → M) → Result String (String → M)
  insert_tx [] ctx tx pools = ok pools
  insert_tx (lane ∷ lanes) ctx tx pools =
      let rest = insert_tx lanes ctx tx pools in
      if lane.match_handler ctx tx
      then (do
        pool ← env.pool.insert ctx tx (pools lane.lane_name)
        ok (set_pool pools lane.lane_name pool))
      else rest

  -- `Remove`: the first lane that contains the transaction.
  unfoldable pub remove_tx :
      List (BaseLane Ctx LegacyDec M) → Tx → (String → M) → Result String (String → M)
  remove_tx [] tx pools = ok pools
  remove_tx (lane ∷ lanes) tx pools =
      let rest = remove_tx lanes tx pools in
      if env.pool.holds (pools lane.lane_name) tx
      then (do
        pool ← env.pool.remove tx (pools lane.lane_name)
        ok (set_pool pools lane.lane_name pool))
      else rest

  -- `Contains`
  unfoldable pub contains_tx : List (BaseLane Ctx LegacyDec M) → (String → M) → Tx → Bool
  contains_tx [] pools tx = false
  contains_tx (lane ∷ lanes) pools tx =
      if env.pool.holds (pools lane.lane_name) tx then true else contains_tx lanes pools tx

  -- The variables of the loop of `ValidateBasic`.
  pub record Seen : Type 0 where
    pub sum : LegacyDec
    pub unlimited : Bool
    pub names : List String

  -- The loop of `ValidateBasic`.
  unfoldable pub check_lanes : List (BaseLane Ctx LegacyDec M) → Seen → Result RegistryError Seen
  check_lanes [] s = ok s
  check_lanes (lane ∷ lanes) s = do
    let zero = env.ops.is_zero lane.cfg.max_block_space
    guard (not (has_key lane.lane_name s.names)) (duplicate_name lane.lane_name)
    guard (not (s.unlimited && zero)) second_unlimited
    check_lanes lanes (record {
      sum = env.ops.plus s.sum lane.cfg.max_block_space;
      unlimited = if zero then true else s.unlimited;
      names = lane.lane_name ∷ s.names;
    })

  -- The `switch` after it.
  unfoldable pub check_sum : Seen → Result RegistryError Unit
  check_sum s = do
    guard (not (env.ops.gt s.sum env.ops.one_dec)) too_much_space
    guard (not (env.ops.lt s.sum env.ops.one_dec && not s.unlimited)) unused_space

  unfoldable pub validate_registry : List (BaseLane Ctx LegacyDec M) → Result RegistryError Unit
  validate_registry [] = err no_lanes
  validate_registry (lane ∷ lanes) = do
    s ←
        check_lanes (lane ∷ lanes)
          (record { sum = env.ops.zero_dec; unlimited = false; names = [] })
    check_sum s

  -- `NewLanedMempool`: the registry, where it is valid
  unfoldable pub new_laned_mempool :
      List (BaseLane Ctx LegacyDec M) → Result RegistryError (List (BaseLane Ctx LegacyDec M))
  new_laned_mempool lanes = do validate_registry lanes; ok lanes

-- `FindLane`: the lane and its index
unfoldable pub find_lane :
    {Ctx LegacyDec M : Type 0}
    → List (BaseLane Ctx LegacyDec M)
    → String
    → ℕ
    → Option (BaseLane Ctx LegacyDec M × ℕ)
find_lane [] name i = none
find_lane (lane ∷ lanes) name i =
    if str_eq lane.lane_name name then some (lane, i) else find_lane lanes name (i + 1)

-- `IgnoreDecorator.AnteHandle`: `next` where a lane matches, the decorator elsewhere
unfoldable pub ignore_ante :
    {Ctx LegacyDec M : Type 0}
    → List (BaseLane Ctx LegacyDec M)
    → (Ctx → Tx → Bool → (Ctx → Tx → Bool → Result String Ctx) → Result String Ctx)
    → Ctx
    → Tx
    → Bool
    → (Ctx → Tx → Bool → Result String Ctx)
    → Result String Ctx
ignore_ante [] decorator ctx tx simulate next = decorator ctx tx simulate next
ignore_ante (lane ∷ lanes) decorator ctx tx simulate next =
    if lane.match_handler ctx tx
    then next ctx tx simulate
    else ignore_ante lanes decorator ctx tx simulate next

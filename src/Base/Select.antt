-- ===== src/Base/Select.antt =====
-- block/base/proposals.go: the default `PrepareLaneHandler`.
use block_sdk.Prelude.{
  ℕ, false, List, [], ◌∷◌, ◌++◌, ℤ, pos, ltb, ltb_ℤ, not, add_int64, add_uint64, ok, err,
  if◌then◌else◌,
}
use block_sdk.Proposals.{Proposal, LaneLimits, TxWithInfo, contains}
use block_sdk.Sdk.{Tx}
use block_sdk.Base.{Env, LaneCore, get_tx_info, verify_tx}

-- What the body of the loop does with a transaction: `continue`, append it to `txsToRemove`, or
-- select it, with the context that its ante check leaves.
pub data Verdict (Ctx : Type 0) : Type 0 where
  skip evict : Verdict Ctx
  select : TxWithInfo → Ctx → Verdict Ctx

-- The variables of the loop.
pub record Selection (Ctx : Type 0) : Type 0 where
  pub ctx : Ctx
  pub total_size : ℤ
  pub total_gas : ℕ
  pub to_include : List Tx
  pub to_remove : List Tx

abbrev pub no_selection : {Ctx : Type 0} → Ctx → Selection Ctx
no_selection ctx = record {
  ctx = ctx;
  total_size = pos 0;
  total_gas = 0;
  to_include = [];
  to_remove = [];
}

module _ {Ctx LegacyDec M : Type 0} (env : Env Ctx LegacyDec M)
    (lane : LaneCore Ctx LegacyDec M) where
  -- The last check of the body.
  unfoldable pub judge_ante : Ctx → Tx → TxWithInfo → Verdict Ctx
  judge_ante ctx tx info = elim (verify_tx env lane ctx tx false) [
    | err e ↦ evict
    | ok ctx' ↦ select info ctx'
  ]

  -- The checks of the body on the information of the transaction.
  unfoldable pub judge_info : Proposal → LaneLimits → Selection Ctx → Tx → TxWithInfo → Verdict Ctx
  judge_info proposal limit s tx info =
      if ltb limit.max_gas_limit info.gas_limit
      then evict
      else if ltb_ℤ limit.max_tx_bytes info.size
      then evict
      else if not (lane.match_handler s.ctx tx)
      then evict
      else if contains proposal info.hash
      then skip
      else if ltb_ℤ limit.max_tx_bytes (add_int64 s.total_size info.size)
      then skip
      else if ltb limit.max_gas_limit (add_uint64 s.total_gas info.gas_limit)
      then skip
      else judge_ante s.ctx tx info

  unfoldable pub judge : Proposal → LaneLimits → Selection Ctx → Tx → Verdict Ctx
  judge proposal limit s tx = elim (get_tx_info env lane tx) [
    | err e ↦ evict
    | ok info ↦ judge_info proposal limit s tx info
  ]

  unfoldable pub apply_verdict : Tx → Selection Ctx → Verdict Ctx → Selection Ctx
  apply_verdict tx s skip = s
  apply_verdict tx s evict = record s { to_remove = s.to_remove ++ tx ∷ [] }
  apply_verdict tx s (select info ctx) = record s {
    ctx = ctx;
    total_size = add_int64 s.total_size info.size;
    total_gas = add_uint64 s.total_gas info.gas_limit;
    to_include = s.to_include ++ tx ∷ [];
  }

  -- The loop over the iterator.
  unfoldable pub select_txs : Proposal → LaneLimits → List Tx → Selection Ctx → Selection Ctx
  select_txs proposal limit [] s = s
  select_txs proposal limit (tx ∷ txs) s =
      select_txs proposal limit txs (apply_verdict tx s (judge proposal limit s tx))

  -- The handler: the transactions to include and to remove, and the context after the checks.
  unfoldable pub default_prepare_lane_handler : Ctx → Proposal → LaneLimits → Selection Ctx
  default_prepare_lane_handler ctx proposal limit =
      select_txs proposal limit (env.pool.select ctx lane.mempool) (no_selection ctx)

-- ===== src/Lanes/Terminator.antt =====
-- lanes/terminator/lane.go: the methods of the terminator that the chains do not call; they do nothing
-- and own nothing. `PrepareLane` and `ProcessLane` are cases of the chains of Abci.
use block_sdk.Prelude.{String, false, [], pos, Result, ok, err}
use block_sdk.Proposals.{TxWithInfo}
use block_sdk.Decimal.{DecOps}
use block_sdk.Sdk.{Tx}
use block_sdk.Base.{LaneMempool, MatchHandler}

-- `LaneName`, which is also what `Name` returns
abbrev pub terminator_name : String
terminator_name = "Terminator"

-- `GetMaxBlockSpace`
unfoldable pub terminator_space : {LegacyDec : Type 0} → DecOps LegacyDec → LegacyDec
terminator_space ops = ops.zero_dec

-- `GetTxInfo`
unfoldable pub terminator_tx_info : {Ctx : Type 0} → Ctx → Tx → Result String TxWithInfo
terminator_tx_info ctx tx = err "terminator lane should not have any transactions"

-- `Match`
unfoldable pub terminator_match : {Ctx : Type 0} → MatchHandler Ctx
terminator_match ctx tx = false

-- `Insert`, `Remove`, `Select`, `CountTx`, `Contains` and `Compare`
unfoldable pub terminator_pool : {Ctx M : Type 0} → LaneMempool Ctx M
terminator_pool = record {
  insert = λ ctx tx pool. ok pool;
  remove = λ tx pool. ok pool;
  select = λ ctx pool. [];
  count_tx = λ pool. 0;
  holds = λ pool tx. false;
  compare = λ pool ctx this other. ok (pos 0);
}

-- ===== src/Base/Pool.antt =====
-- block/base/mempool.go: the methods of `Mempool` over its index. The index is that of
-- block/base/priority_nonce.go, a copy of the mempool of cosmos-sdk, and a parameter. The prefixes that
-- errors are wrapped in are left out.
pub mod Removal
use block_sdk.Prelude.{ℕ, String, Bool, List, ℤ, Result, ok, err, map_err}
use block_sdk.Sdk.{Tx}
use block_sdk.Base.{LaneMempool}
use block_sdk.Base.Mempool.{
  CompareError, no_signers, no_first_signer, no_second_signer, same_sequence, compare_txs,
}
use block_sdk.Base.Setup.{Extractor, TxPriority}

-- `sdkmempool.ErrTxNotFound`, and the other errors of an index
pub data IndexError : Type 0 where
  tx_not_found : IndexError
  index_error : String → IndexError

-- `MempoolInterface`
pub record MempoolInterface (Ctx M : Type 0) : Type 0 where
  pub insert_index : Ctx → Tx → M → Result String M
  pub remove_index : Tx → M → Result IndexError M
  pub select_index : Ctx → M → List Tx
  pub count_index : M → ℕ
  pub holds_index : M → Tx → Bool

-- The texts of the errors of `Compare`.
unfoldable pub compare_text : CompareError → String
compare_text (no_signers e) = e
compare_text no_first_signer = "expected one signer for the first transaction"
compare_text no_second_signer = "expected one signer for the second transaction"
compare_text same_sequence = "the two transactions have the same sequence number"

-- `Remove`, by what the index answers: an index that does not have the transaction is no error.
unfoldable pub without_not_found : {M : Type 0} → M → Result IndexError M → Result String M
without_not_found pool (ok pool') = ok pool'
without_not_found pool (err tx_not_found) = ok pool
without_not_found pool (err (index_error e)) = err e

module _ {Ctx M C : Type 0} (index : MempoolInterface Ctx M) (extractor : Extractor)
    (tx_priority : TxPriority Ctx C) where
  -- `Remove`
  unfoldable pub mempool_remove : Tx → M → Result String M
  mempool_remove tx pool = without_not_found pool (index.remove_index tx pool)

  -- `Compare`
  unfoldable pub mempool_compare : M → Ctx → Tx → Tx → Result String ℤ
  mempool_compare pool ctx this other =
      map_err compare_text
        (compare_txs extractor tx_priority.get_tx_priority tx_priority.compare ctx this other)

  -- `Mempool` as the mempool of a lane; `Insert`, `Select`, `CountTx` and `Contains` are those of the
  -- index.
  unfoldable pub lane_pool : LaneMempool Ctx M
  lane_pool = record {
    insert = index.insert_index;
    remove = mempool_remove;
    select = index.select_index;
    count_tx = index.count_index;
    holds = index.holds_index;
    compare = mempool_compare;
  }

  -- `Priority`
  unfoldable pub priority_of : Ctx → Tx → C
  priority_of ctx tx = tx_priority.get_tx_priority ctx tx

-- ===== src/Base/Pool/Removal.antt =====
-- block/base/mempool.go and block/utils/utils.go: the removal of transactions from the mempool of a
-- lane.
use block_sdk.Prelude.{
  ◌≡◌, refl, sym, subst, String, true, false, Bool-cases, inl, inr, List, [], ◌∷◌, All, ok, err,
}
use block_sdk.Decimal.{DecOps, DecLaws}
use block_sdk.Proposals.{Bytes, SignerData}
use block_sdk.Sdk.{Tx}
use block_sdk.Base.{Env}
use block_sdk.Base.Lane.{remove_txs_from_lane}
use block_sdk.Base.Pool.{
  MempoolInterface, tx_not_found, without_not_found, mempool_remove, lane_pool,
}
use block_sdk.Base.Setup.{Extractor, TxPriority}
use block_sdk.Mempool.Removal.{IsRemoving}

-- The extractor returns at least one signer.
pub record HasSigner (extractor : Extractor) (tx : Tx) : Type 0 where
  pub signer : SignerData
  pub others : List SignerData
  pub extracted : extractor tx ≡ ok (signer ∷ others)

-- What the SDK documents of an index: `Remove` takes out a transaction that the index has, returns
-- `ErrTxNotFound` for one with a signer that it has not, and puts none in. For one without a signer
-- it may return another error.
pub record IndexLaws {Ctx M : Type 0} (index : MempoolInterface Ctx M) (extractor : Extractor)
    : Type 0 where
  pub remove_held :
      (tx : Tx) (pool : M)
      → index.holds_index pool tx ≡ true
      → (pool' : M) × (index.remove_index tx pool ≡ ok pool') × (index.holds_index pool' tx ≡ false)
  pub remove_absent :
      (tx : Tx) (pool : M)
      → HasSigner extractor tx
      → index.holds_index pool tx ≡ false
      → index.remove_index tx pool ≡ err tx_not_found
  pub remove_others :
      (tx other : Tx) (pool pool' : M)
      → index.remove_index tx pool ≡ ok pool'
      → index.holds_index pool other ≡ false
      → index.holds_index pool' other ≡ false

remove_first :
    {Ctx LegacyDec M : Type 0} (env : Env Ctx LegacyDec M) (tx : Tx) (txs : List Tx)
    (pool pool' : M)
    → env.pool.remove tx pool ≡ ok pool'
    → remove_txs_from_lane env (tx ∷ txs) pool ≡ remove_txs_from_lane env txs pool'
unfolding remove_txs_from_lane
remove_first env tx txs pool pool' h = rw (h, remove_txs_from_lane) refl

module _ {Ctx LegacyDec M C : Type 0} (hash : Bytes → String) (ops : DecOps LegacyDec)
    (index : MempoolInterface Ctx M) (extractor : Extractor) (tx_priority : TxPriority Ctx C) where
  -- The environment of lanes with such mempools.
  abbrev pub env_over : Env Ctx LegacyDec M
  env_over = record { hash = hash; ops = ops; pool = lane_pool index extractor tx_priority }

  -- What a call of `Remove` leaves that does not fail: the transaction is not there.
  pub record IsCleared (tx : Tx) (pool : M) : Type 0 where
    pub left : M
    pub cleared : mempool_remove index extractor tx_priority tx pool ≡ ok left
    pub gone : index.holds_index left tx ≡ false
    pub still_absent :
        (other : Tx) → index.holds_index pool other ≡ false → index.holds_index left other ≡ false

  module _ (laws : IndexLaws index extractor) where
    pub mempool_remove-IsCleared : (tx : Tx) (pool : M) → HasSigner extractor tx → IsCleared tx pool
    unfolding mempool_remove without_not_found
    mempool_remove-IsCleared tx pool signed = elim (Bool-cases (index.holds_index pool tx)) [
      | inl held ↦
          let (pool', done, gone) = laws.remove_held tx pool held in
          record {
            left = pool';
            cleared = rw done refl;
            gone = gone;
            still_absent = λ other h. laws.remove_others tx other pool pool' done h;
          }
      | inr free ↦ record {
        left = pool;
        cleared = rw (laws.remove_absent tx pool signed free) refl;
        gone = free;
        still_absent = λ other h. h;
      }
    ]

    -- Such a mempool keeps the promise that the handlers of `CheckTx` rely on.
    pub lane_pool-IsRemoving : (dec_laws : DecLaws ops) (tx : Tx) → IsRemoving env_over dec_laws tx
    unfolding lane_pool mempool_remove without_not_found
    lane_pool-IsRemoving dec_laws tx = record {
      removes = λ pool held.
          let (pool', done, gone) = laws.remove_held tx pool held in (pool', rw done refl, gone);
    }

    absent_after :
        (txs : List Tx) (pool : M) (tx : Tx)
        → All (HasSigner extractor) txs
        → index.holds_index pool tx ≡ false
        → index.holds_index (remove_txs_from_lane env_over txs pool) tx ≡ false
    unfolding lane_pool remove_txs_from_lane
    absent_after [] pool tx signed h = h
    absent_after (first ∷ txs) pool tx signed h =
        let step = mempool_remove-IsCleared first pool signed.0 in
        rw (remove_first env_over first txs pool step.left step.cleared)
          (absent_after txs step.left tx signed.1 (step.still_absent tx h))

    -- Of a mempool whose index behaves as the SDK documents, `RemoveTxsFromLane` leaves none of the
    -- given transactions, where the extractor returns a signer of each of them, also where some are
    -- not there, or stand twice in the list.
    pub remove_txs_from_lane-lane_pool :
        (txs : List Tx) (pool : M)
        → All (HasSigner extractor) txs
        → All (λ tx. index.holds_index (remove_txs_from_lane env_over txs pool) tx ≡ false) txs
    unfolding remove_txs_from_lane lane_pool
    remove_txs_from_lane-lane_pool [] pool signed = tt
    remove_txs_from_lane-lane_pool (tx ∷ txs) pool signed =
        let step = mempool_remove-IsCleared tx pool signed.0 in
        subst (λ left. All (λ t. index.holds_index left t ≡ false) (tx ∷ txs))
          (sym (remove_first env_over tx txs pool step.left step.cleared))
          (
            absent_after txs step.left tx signed.1 step.gone,
            remove_txs_from_lane-lane_pool txs step.left signed.1,
          )

-- ===== src/Tests/Pools.antt =====
-- block/base/mempool.go over a concrete index, which tells transactions apart by their length.
use block_sdk.Prelude.{
  ℕ, ◌≡◌, refl, some, subst, Bool, true, false, List, [], ◌∷◌, All, length, Result, ok, err, ◌==◌,
  if◌then◌else◌, arith,
}
use block_sdk.Proposals.{Bytes, SignerData}
use block_sdk.Sdk.{Tx}
use block_sdk.Base.Lane.{remove_txs_from_lane}
use block_sdk.Base.Mempool.{default_get_signers}
use block_sdk.Base.Pool.{MempoolInterface, IndexError, tx_not_found}
use block_sdk.Base.Pool.Removal.{HasSigner, IndexLaws, env_over, remove_txs_from_lane-lane_pool}
use block_sdk.Base.Setup.{default_tx_priority}
use block_sdk.Tests.Decimals.{units_ops}
use block_sdk.Tests.Lanes.{tx_of}

abbrev without : ℕ → (ℕ → Bool) → ℕ → Bool
without k pool n = if n == k then false else pool n

abbrev remove_length : Tx → (ℕ → Bool) → Result IndexError (ℕ → Bool)
remove_length tx pool =
    if pool (length tx.body) then ok (without (length tx.body) pool) else err tx_not_found

abbrev by_length : MempoolInterface ℕ (ℕ → Bool)
by_length = record {
  insert_index = λ ctx tx pool. ok (λ n. if n == length tx.body then true else pool n);
  remove_index = remove_length;
  select_index = λ ctx pool. [];
  count_index = λ pool. 0;
  holds_index = λ pool tx. pool (length tx.body);
}

without_self : (k : ℕ) (pool : ℕ → Bool) → without k pool k ≡ false
without_self k pool = ground arith

without_absent : (k n : ℕ) (pool : ℕ → Bool) → pool n ≡ false → without k pool n ≡ false
without_absent k n pool h = ground arith

left_after : (b : Bool) (p q : ℕ → Bool) → (if b then ok p else err tx_not_found) ≡ ok q → p ≡ q
left_after true p q h = cc
left_after false p q h = absurd (ground arith)

by_length_laws : IndexLaws by_length default_get_signers
by_length_laws = record {
  remove_held = λ tx pool held.
      (without (length tx.body) pool, rw held refl, without_self (length tx.body) pool);
  remove_absent = λ tx pool signed free. rw free refl;
  remove_others = λ tx other pool pool' done free.
      subst (λ (p : ℕ → Bool). p (length other.body) ≡ false)
        (left_after (pool (length tx.body)) (without (length tx.body) pool) pool' done)
        (without_absent (length tx.body) (length other.body) pool free);
}

abbrev alice : SignerData
alice = record { signer = "alice"; sequence = 4 }

abbrev signed_tx : Bytes → Tx
signed_tx bytes = record (tx_of bytes 10) { signatures = some (ok (alice ∷ [])) }

signed_tx-HasSigner : (bytes : Bytes) → HasSigner default_get_signers (signed_tx bytes)
unfolding default_get_signers
signed_tx-HasSigner bytes = record { signer = alice; others = []; extracted = refl }

-- one that the mempool has, one that it has not, and the first one again
abbrev given : List Tx
given = signed_tx (1 ∷ []) ∷ signed_tx (1 ∷ 2 ∷ []) ∷ signed_tx (3 ∷ []) ∷ []

abbrev ones : ℕ → Bool
ones n = n == 1

remove_txs_from_lane-lane_pool_example :
    All
      (λ (tx : Tx).
        by_length.holds_index
          (remove_txs_from_lane
            (env_over (λ bytes. "A") units_ops by_length default_get_signers default_tx_priority)
            given
            ones)
          tx
        ≡ false)
      given
remove_txs_from_lane-lane_pool_example =
    remove_txs_from_lane-lane_pool (λ bytes. "A") units_ops by_length default_get_signers
      default_tx_priority by_length_laws given ones
      (
        signed_tx-HasSigner (1 ∷ []),
        (signed_tx-HasSigner (1 ∷ 2 ∷ []), (signed_tx-HasSigner (3 ∷ []), tt)),
      )

-- ===== src/Tests/Compare.antt =====
-- block/base/mempool.go at concrete transactions: two of one signer.
use block_sdk.Prelude.{
  ℕ, ◌≡◌, refl, some, [], ◌∷◌, ℤ, pos, negsuc, ltb, str_eq, ok, arith, if◌then◌else◌, Bool-cases,
  inl, inr,
}
use block_sdk.Sdk.{Tx}
use block_sdk.Base.Mempool.{
  default_get_signers, first_signer, compare_signers, compare_txs, opposite, compare_txs-swap,
}
use block_sdk.Tests.Lanes.{tx_of}

abbrev signed : ℕ → Tx
signed n = record (tx_of (1 ∷ []) 10) {
  signatures = some (ok (record { signer = "alice"; sequence = n } ∷ []));
}

abbrev priority : ℕ → Tx → ℕ
priority ctx tx = ctx

abbrev by_number : ℕ → ℕ → ℤ
by_number a b = if ltb a b then negsuc 0 else if ltb b a then pos 1 else pos 0

by_number-swap : (a b : ℕ) → by_number b a ≡ opposite (by_number a b)
by_number-swap a b = elim (Bool-cases (ltb a b)) [
  | inl h ↦ elim (Bool-cases (ltb b a)) [ inl k ↦ absurd (ground arith) | inr k ↦ rw (h, k) ]
  | inr h ↦ elim (Bool-cases (ltb b a)) [ inl k ↦ rw (h, k) | inr k ↦ rw (h, k) ]
]

first_wins : compare_txs default_get_signers priority by_number 0 (signed 1) (signed 2) ≡ ok (pos 1)
unfolding default_get_signers first_signer compare_signers compare_txs str_eq
first_wins = refl

other_loses :
    compare_txs default_get_signers priority by_number 0 (signed 2) (signed 1) ≡ ok (negsuc 0)
other_loses =
    compare_txs-swap default_get_signers priority by_number 0 (signed 1) (signed 2) (pos 1)
      by_number-swap first_wins

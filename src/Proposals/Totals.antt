-- ===== src/Proposals/Totals.antt =====
-- What the loop of `UpdateProposal` computes, in numbers that do not wrap round.
use mathlib.Core.List.{append-nil, append_assoc}
use block_sdk.Prelude.{
  ℕ, ◌+◌, ◌^◌, ◌<◌, ◌≡◌, refl, ◌∙◌, String, false, List, [], ◌∷◌, ◌++◌, pos, add_int64_exact,
  add_uint64_exact, length, All, ok, arith, inl, inr, Bool-cases,
}
use block_sdk.Proposals.{Bytes, Proposal, TxWithInfo, contains}
use block_sdk.Proposals.Update.{Totals, add_tx, aggregate}

abbrev pub hashes_of : List TxWithInfo → List String
hashes_of [] = []
hashes_of (tx ∷ txs) = tx.hash ∷ hashes_of txs

abbrev pub total_bytes : List Bytes → ℕ
total_bytes [] = 0
total_bytes (b ∷ bs) = length b + total_bytes bs

abbrev pub bytes_of : List TxWithInfo → List Bytes
bytes_of [] = []
bytes_of (tx ∷ txs) = tx.tx_bytes ∷ bytes_of txs

abbrev pub gas_of : List TxWithInfo → ℕ
gas_of [] = 0
gas_of (tx ∷ txs) = tx.gas_limit + gas_of txs

-- `Size: int64(len(txBytes))`
abbrev pub IsSized : TxWithInfo → Type 0
IsSized tx = tx.size ≡ pos (length tx.tx_bytes)

abbrev pub IsNew : Proposal → TxWithInfo → Type 0
IsNew p tx = contains p tx.hash ≡ false

pub total_bytes-append :
    (xs ys : List Bytes) → total_bytes (xs ++ ys) ≡ total_bytes xs + total_bytes ys
total_bytes-append [] ys = omega arith
total_bytes-append (x ∷ xs) ys = omega (arith, total_bytes-append xs ys)

-- All the rounds of the loop.
abbrev pub add_all : Totals → List TxWithInfo → Totals
add_all t [] = t
add_all t (tx ∷ txs) = add_all (add_tx t tx) txs

-- The loop succeeds exactly when every transaction is new, and then it has added all of them.
pub aggregate_ok :
    (p : Proposal) (txs : List TxWithInfo) (t : Totals)
    → All (IsNew p) txs
    → aggregate p txs t ≡ ok (add_all t txs)
unfolding aggregate
aggregate_ok p [] t h = refl
aggregate_ok p (tx ∷ txs) t h = ground (arith, aggregate_ok p txs (add_tx t tx) h.1)

pub aggregate-eq-ok :
    (p : Proposal) (txs : List TxWithInfo) (t : Totals) {t' : Totals}
    → aggregate p txs t ≡ ok t'
    → All (IsNew p) txs × (t' ≡ add_all t txs)
unfolding aggregate
aggregate-eq-ok p [] t h = (tt, ground arith)
aggregate-eq-ok p (tx ∷ txs) t {t'} h = elim (Bool-cases (contains p tx.hash)) [
  | inl old ↦ absurd (ground arith)
  | inr new ↦
      let rest : aggregate p txs (add_tx t tx) ≡ ok t' = ground arith in
      let (fresh, e) = aggregate-eq-ok p txs (add_tx t tx) rest in ((new, fresh), e)
]

-- The totals of the loop are the sums, as long as these do not pass the words of the machine.
pub add_all_exact :
    (txs : List TxWithInfo) (t : Totals) (size : ℕ)
    → All IsSized txs
    → t.size ≡ pos size
    → size + total_bytes (bytes_of txs) < 2 ^ 63
    → t.gas + gas_of txs < 2 ^ 64
    → ((add_all t txs).size ≡ pos (size + total_bytes (bytes_of txs)))
      × ((add_all t txs).gas ≡ t.gas + gas_of txs)
add_all_exact [] t size s e small gas = ground arith
add_all_exact (tx ∷ txs) t size s e small gas = ground (
  arith,
  add_all_exact txs (add_tx t tx) (size + length tx.tx_bytes) s.1,
  add_int64_exact size (length tx.tx_bytes),
  add_uint64_exact t.gas tx.gas_limit,
)

pub txs-add_all : (txs : List TxWithInfo) (t : Totals) → (add_all t txs).txs ≡ t.txs ++ bytes_of txs
txs-add_all [] t = rw append-nil
txs-add_all (tx ∷ txs) t =
    txs-add_all txs (add_tx t tx) ∙ append_assoc t.txs (tx.tx_bytes ∷ []) (bytes_of txs)

-- ===== src/Base/Mempool.antt =====
-- block/base/mempool.go: `Compare`; the signer extraction of adapters/signer_extraction_adapter.
use block_sdk.Prelude.{
  ℕ, zero, suc, ◌≡◌, sym, ap, ◌∙◌, String, Bool, true, false, ◌&&◌, Bool-cases, inl, inr, none,
  some, List, [], ◌∷◌, ℤ, pos, negsuc, ltb, str_eq, str_eq_iff, Result, ok, err, ◌>>=◌, >>=-eq-ok,
  ok-injective, map_err, arith, if◌then◌else◌,
}
use block_sdk.Proposals.{SignerData}
use block_sdk.Sdk.{Tx}

pub data CompareError : Type 0 where
  no_signers : String → CompareError
  no_first_signer no_second_signer same_sequence : CompareError

-- `DefaultAdapter.GetSigners`
unfoldable pub default_get_signers : Tx → Result String (List SignerData)
default_get_signers tx = elim tx.signatures [
  | none ↦ err "tx does not implement SigVerifiableTx"
  | some signatures ↦ signatures
]

-- `if len(signers) == 0 { return error }; signers[0]`
unfoldable pub first_signer : CompareError → List SignerData → Result CompareError SignerData
first_signer e [] = err e
first_signer e (signer ∷ signers) = ok signer

-- The end of `Compare`, by the first signers and the comparison of the priorities.
unfoldable pub compare_signers : SignerData → SignerData → ℤ → Result CompareError ℤ
compare_signers this other priorities =
    if str_eq this.signer other.signer
    then (if ltb this.sequence other.sequence
        then ok (pos 1)
        else if ltb other.sequence this.sequence
        then ok (negsuc 0)
        else err same_sequence)
    else ok priorities

abbrev pub opposite : ℤ → ℤ
opposite (pos zero) = pos 0
opposite (pos (suc n)) = negsuc n
opposite (negsuc n) = pos (suc n)

str_eq-swap : (s t : String) → str_eq s t ≡ str_eq t s
str_eq-swap s t = elim (Bool-cases (str_eq s t)) [
  | inl h ↦ h ∙ sym ((str_eq_iff t s).1 (sym ((str_eq_iff s t).0 h)))
  | inr h ↦ elim (Bool-cases (str_eq t s)) [
    | inl k ↦ let same = (str_eq_iff s t).1 (sym ((str_eq_iff t s).0 k)) in cc
    | inr k ↦ h ∙ sym k
  ]
]

never_both : (m n : ℕ) → (ltb m n && ltb n m) ≡ false
never_both m n = ground arith

by_order :
    (lt gt : Bool) (v : ℤ)
    → (lt && gt) ≡ false
    → (if lt then ok (pos 1) else if gt then ok (negsuc 0) else err same_sequence) ≡ ok v
    → (if gt then ok (pos 1) else if lt then ok (negsuc 0) else err same_sequence) ≡ ok (opposite v)
by_order true true v d h = cc
by_order true false v d h = ap (λ n. ok (opposite n)) (ok-injective (pos 1) v h)
by_order false true v d h = ap (λ n. ok (opposite n)) (ok-injective (negsuc 0) v h)
by_order false false v d h = absurd (ground arith)

compare_signers-swap :
    (a b : SignerData) (p q v : ℤ)
    → q ≡ opposite p
    → compare_signers a b p ≡ ok v
    → compare_signers b a q ≡ ok (opposite v)
unfolding compare_signers
compare_signers-swap a b p q v e h = elim (Bool-cases (str_eq a.signer b.signer)) [
  | inl same ↦
      let back = str_eq-swap b.signer a.signer ∙ same in
      let h₀ = rw same at h in
      rw back (
        by_order (ltb a.sequence b.sequence) (ltb b.sequence a.sequence) v
          (never_both a.sequence b.sequence) h₀)
  | inr differ ↦
      let back = str_eq-swap b.signer a.signer ∙ differ in
      let h₀ = rw differ at h in rw back (ap ok (e ∙ ap opposite (ok-injective p v h₀)))
]

module _ {Ctx P : Type 0} (extract : Tx → Result String (List SignerData))
    (get_tx_priority : Ctx → Tx → P) (compare : P → P → ℤ) where
  unfoldable pub compare_txs : Ctx → Tx → Tx → Result CompareError ℤ
  compare_txs ctx this other = do
    signers ← map_err no_signers (extract this)
    this_signer ← first_signer no_first_signer signers
    others ← map_err no_signers (extract other)
    other_signer ← first_signer no_second_signer others
    compare_signers this_signer other_signer
        (compare (get_tx_priority ctx this) (get_tx_priority ctx other))

  first_signer-other :
      (signers : List SignerData) {s : SignerData} (e f : CompareError)
      → first_signer e signers ≡ ok s
      → first_signer f signers ≡ ok s
  unfolding first_signer
  first_signer-other [] e f h = absurd (ground arith)
  first_signer-other (x ∷ signers) e f h = ap ok (ok-injective x _ h)

  -- Where the comparison of priorities is antisymmetric, so is `Compare`: if it returns a value for
  -- two transactions, it returns the opposite value for them in the other order.
  pub compare_txs-swap :
      (ctx : Ctx) (this other : Tx) (v : ℤ)
      → ((a b : P) → compare b a ≡ opposite (compare a b))
      → compare_txs ctx this other ≡ ok v
      → compare_txs ctx other this ≡ ok (opposite v)
  unfolding compare_txs
  compare_txs-swap ctx this other v antisymmetric h =
      let (xs, known_xs, h₁) = >>=-eq-ok (map_err no_signers (extract this)) _ h in
      let (x, first, h₂) = >>=-eq-ok (first_signer no_first_signer xs) _ h₁ in
      let (ys, known_ys, h₃) = >>=-eq-ok (map_err no_signers (extract other)) _ h₂ in
      let (y, second, h₄) = >>=-eq-ok (first_signer no_second_signer ys) _ h₃ in
      let first' = first_signer-other ys no_second_signer no_first_signer second in
      let second' = first_signer-other xs no_first_signer no_second_signer first in
      let swapped =
        compare_signers-swap x y _ _ v
          (antisymmetric (get_tx_priority ctx this) (get_tx_priority ctx other)) h₄ in
      rw (known_ys, first', known_xs, second') swapped

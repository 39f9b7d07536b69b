-- ===== src/Base/Acceptance.antt =====
-- What the default `ProcessLaneHandler` accepts.
use mathlib.Core.Path.{ap₂, subst₃}
use block_sdk.Prelude.{
  ◌≡◌, refl, ap, ◌∙◌, subst, true, false, Option, some, List, [], ◌∷◌, ◌++◌, All, Result, ok,
  >>=-eq-ok, map_err, map_err-eq-ok, arith, inl, inr, Bool-cases,
}
use block_sdk.Sdk.{Tx}
use block_sdk.Base.{
  Env, LaneCore, LaneError, no_matches_failed, verify_failed, verify_tx, verify_no_matches,
}
use block_sdk.Base.Process.{check_order, process_txs}

module _ {Ctx LegacyDec M : Type 0} (env : Env Ctx LegacyDec M)
    (lane : LaneCore Ctx LegacyDec M) where
  -- The transaction does not belong to the lane.
  abbrev pub IsForeign : Ctx → Tx → Type 0
  IsForeign c tx = lane.match_handler c tx ≡ false

  -- The conditions 1 to 4 of the comment of `DefaultProcessLaneHandler`: from the context `c` on,
  -- each transaction of `own` matches the lane, is not of a higher priority than the one before it
  -- and passes the ante handler; at the context `c'` that they leave, no transaction of `rest`
  -- matches the lane.
  unfoldable pub IsProcessed : Option Tx → Ctx → List Tx → List Tx → Ctx → Type 0
  IsProcessed previous c [] rest c' = (c ≡ c') × All (IsForeign c) rest
  IsProcessed previous c (tx ∷ own) rest c' =
      (lane.match_handler c tx ≡ true)
      × (check_order env lane c previous tx ≡ ok tt)
      × (next : Ctx) × (verify_tx env lane c tx false ≡ ok next)
      × IsProcessed (some tx) next own rest c'

  pub verify_no_matches-IsForeign :
      (c : Ctx) (txs : List Tx) → verify_no_matches env lane c txs ≡ ok tt → All (IsForeign c) txs
  unfolding verify_no_matches
  verify_no_matches-IsForeign c [] h = tt
  verify_no_matches-IsForeign c (tx ∷ txs) h =
      let foreign : lane.match_handler c tx ≡ false = ground arith in
      (foreign, verify_no_matches-IsForeign c txs (rw (foreign, verify_no_matches) at h))

  pub IsForeign-verify_no_matches :
      (c : Ctx) (txs : List Tx) → All (IsForeign c) txs → verify_no_matches env lane c txs ≡ ok tt
  unfolding verify_no_matches
  IsForeign-verify_no_matches c [] h = refl
  IsForeign-verify_no_matches c (tx ∷ txs) h = rw h.0 (IsForeign-verify_no_matches c txs h.1)

  process_foreign :
      (previous : Option Tx) (c : Ctx) (txs : List Tx)
      → All (IsForeign c) txs
      → process_txs env lane previous txs c ≡ ok ([], txs, c)
  unfolding process_txs
  process_foreign previous c [] h = refl
  process_foreign previous c (tx ∷ txs) h =
      rw (h.0, process_txs, IsForeign-verify_no_matches c txs h.1)

  pub IsProcessed-process_txs :
      (previous : Option Tx) (c : Ctx) (own rest : List Tx) (c' : Ctx)
      → IsProcessed previous c own rest c'
      → process_txs env lane previous (own ++ rest) c ≡ ok (own, rest, c')
  unfolding process_txs IsProcessed
  IsProcessed-process_txs previous c [] rest c' (e, foreign) =
      process_foreign previous c rest foreign ∙ ap (λ d. ok ([], rest, d)) e
  IsProcessed-process_txs previous c (tx ∷ own) rest c' (matched, ordered, next, verified, more) =
      rw (
        matched,
        process_txs,
        ordered,
        verified,
        IsProcessed-process_txs (some tx) next own rest c' more,
      )

  -- the result of a branch that ends the loop, taken apart
  triple_parts :
      (xs ys own rest : List Tx) (c c' : Ctx)
      → ◌≡◌ {A = Result LaneError (List Tx × List Tx × Ctx)} (ok (xs, ys, c)) (ok (own, rest, c'))
      → (xs ≡ own) × (ys ≡ rest) × (c ≡ c')
  triple_parts xs ys own rest c c' h = ground arith

  process_matched :
      (previous : Option Tx) (c : Ctx) (tx : Tx) (txs own rest : List Tx) (c' : Ctx)
      → lane.match_handler c tx ≡ true
      → process_txs env lane previous (tx ∷ txs) c ≡ ok (own, rest, c')
      → (next : Ctx) × (own' : List Tx) × (check_order env lane c previous tx ≡ ok tt)
        × (verify_tx env lane c tx false ≡ ok next)
        × (process_txs env lane (some tx) txs next ≡ ok (own', rest, c'))
        × (tx ∷ own' ≡ own)
  unfolding process_txs
  process_matched previous c tx txs own rest c' matched h =
      let h₀ = rw (matched, process_txs) at h in
      let (_, ordered, h₁) = >>=-eq-ok (check_order env lane c previous tx) _ h₀ in
      let (next, verified, h₂) =
        >>=-eq-ok (map_err verify_failed (verify_tx env lane c tx false)) _ h₁ in
      let ((own', rest', d), looped, h₃) =
        >>=-eq-ok (process_txs env lane (some tx) txs next) _ h₂ in
      let (e₁, e₂, e₃) = triple_parts (tx ∷ own') rest' own rest d c' h₃ in
      (
        next,
        own',
        ordered,
        map_err-eq-ok verify_failed (verify_tx env lane c tx false) verified,
        looped ∙ ap₂ (λ ys e. ok (own', ys, e)) e₂ e₃,
        e₁,
      )

  process_unmatched :
      (previous : Option Tx) (c : Ctx) (tx : Tx) (txs own rest : List Tx) (c' : Ctx)
      → lane.match_handler c tx ≡ false
      → process_txs env lane previous (tx ∷ txs) c ≡ ok (own, rest, c')
      → All (IsForeign c) (tx ∷ txs) × ([] ≡ own) × (tx ∷ txs ≡ rest) × (c ≡ c')
  unfolding process_txs
  process_unmatched previous c tx txs own rest c' foreign h =
      let h₀ = rw (foreign, process_txs) at h in
      let (_, others, h₁) =
        >>=-eq-ok (map_err no_matches_failed (verify_no_matches env lane c txs)) _ h₀ in
      let (e₁, e₂, e₃) = triple_parts [] (tx ∷ txs) own rest c c' h₁ in
      (
        (
          foreign,
          verify_no_matches-IsForeign c txs
              (map_err-eq-ok no_matches_failed (verify_no_matches env lane c txs) others),
        ),
        e₁,
        e₂,
        e₃,
      )

  pub process_txs-IsProcessed :
      (previous : Option Tx) (c : Ctx) (txs : List Tx) (own rest : List Tx) (c' : Ctx)
      → process_txs env lane previous txs c ≡ ok (own, rest, c')
      → (txs ≡ own ++ rest) × IsProcessed previous c own rest c'
  unfolding process_txs IsProcessed
  process_txs-IsProcessed previous c [] own rest c' h =
      let (e₁, e₂, e₃) = triple_parts [] [] own rest c c' h in
      subst₃ (λ xs ys d. ([] ≡ xs ++ ys) × IsProcessed previous c xs ys d) e₁ e₂ e₃
        (refl, (refl, tt))
  process_txs-IsProcessed previous c (tx ∷ txs) own rest c' h =
      elim (Bool-cases (lane.match_handler c tx)) [
        | inl matched ↦
            let (next, own', ordered, verified, looped, e) =
              process_matched previous c tx txs own rest c' matched h in
            let (split, more) = process_txs-IsProcessed (some tx) next txs own' rest c' looped in
            subst (λ xs. (tx ∷ txs ≡ xs ++ rest) × IsProcessed previous c xs rest c') e
              (ap (◌∷◌ tx) split, (matched, ordered, next, verified, more))
        | inr foreign ↦
            let (others, e₁, e₂, e₃) = process_unmatched previous c tx txs own rest c' foreign h in
            subst₃ (λ xs ys d. (tx ∷ txs ≡ xs ++ ys) × IsProcessed previous c xs ys d) e₁ e₂ e₃
              (refl, (refl, others))
      ]

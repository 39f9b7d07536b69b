-- ===== src/Prelude/Keys.antt =====
-- Go's `map[string]struct{}` and `map[string]V`: what the program observes of them is membership,
-- lookup and, for the lane counts, the entries.
use Prim.Native.String.{String}
use mathlib.Core.Path.{◌≡◌, refl}
use mathlib.Core.Bool.{Bool, true, false, ◌||◌}
use mathlib.Core.Option.{Option, none, some}
use mathlib.Core.List.{List, [], ◌∷◌, ◌++◌}
use native.Mathlib.Omega.{arith}
use text.Mathlib.Text.{◌==◌ as text_eq}
use text.Mathlib.TextEquality.{eq_iff as text_eq_iff}
use block_sdk.Prelude.Tests.{if◌then◌else◌}
use mathlib.Core.Logic.{◌↔◌}

unfoldable pub str_eq : String → String → Bool
str_eq s t = text_eq s t

pub str_eq_iff : (s t : String) → (str_eq s t ≡ true) ↔ (s ≡ t)
unfolding str_eq
str_eq_iff s t = text_eq_iff s t

unfoldable pub has_key : String → List String → Bool
unfolding str_eq
has_key k [] = false
has_key k (j ∷ js) = str_eq j k || has_key k js

module _ {ℓ} {V : Type ℓ} where
  unfoldable pub lookup : String → List (String × V) → Option V
  unfolding str_eq
  lookup k [] = none
  lookup k ((j, v) ∷ m) = if str_eq j k then some v else lookup k m

  unfoldable pub insert : String → V → List (String × V) → List (String × V)
  unfolding str_eq
  insert k v [] = (k, v) ∷ []
  insert k v ((j, w) ∷ m) = if str_eq j k then (k, v) ∷ m else (j, w) ∷ insert k v m

  unfoldable pub delete : String → List (String × V) → List (String × V)
  unfolding str_eq
  delete k [] = []
  delete k ((j, w) ∷ m) = let rest = delete k m in if str_eq j k then rest else (j, w) ∷ rest

pub has_key-append :
    (k : String) (js ks : List String) → has_key k (js ++ ks) ≡ (has_key k js || has_key k ks)
unfolding has_key
has_key-append k [] ks = refl
has_key-append k (j ∷ js) ks = ground (arith, has_key-append k js ks)

module _ {ℓ} {V : Type ℓ} where
  -- Go's `m[k] = v`, seen by a lookup.
  pub lookup-insert :
      (k j : String) (v : V) (m : List (String × V))
      → lookup j (insert k v m) ≡ (if str_eq k j then some v else lookup j m)
  unfolding lookup insert
  lookup-insert k j v [] = refl
  lookup-insert k j v ((i, w) ∷ m) =
      ground (arith, text_eq_iff k j, text_eq_iff i k, text_eq_iff i j, lookup-insert k j v m)

  -- Go's `delete(m, k)`, seen by a lookup.
  pub lookup-delete :
      (k j : String) (m : List (String × V))
      → lookup j (delete k m) ≡ (if str_eq k j then none else lookup j m)
  unfolding lookup delete
  lookup-delete k j [] = ground arith
  lookup-delete k j ((i, w) ∷ m) =
      ground (arith, text_eq_iff k j, text_eq_iff i k, text_eq_iff i j, lookup-delete k j m)

  -- A new key goes in at the end.
  pub insert-new :
      (k : String) (v : V) (m : List (String × V))
      → lookup k m ≡ none
      → insert k v m ≡ m ++ (k, v) ∷ []
  unfolding lookup insert
  insert-new k v [] h = refl
  insert-new k v ((i, w) ∷ m) h = ground (arith, insert-new k v m)

  pub lookup-append :
      (j : String) (m : List (String × V)) (k : String) (v : V)
      → lookup j (m ++ (k, v) ∷ [])
        ≡ elim (lookup j m) [ some found ↦ some found | none ↦ if str_eq k j then some v else none ]
  unfolding lookup
  lookup-append j [] k v = refl
  lookup-append j ((i, w) ∷ m) k v = ground (arith, lookup-append j m k v)

-- ===== src/Utils/Decoder/Ring.antt =====
-- block/utils/decoder.go: the window as a ring over the keys of the cache, and how it is kept when a
-- transaction is stored.
use block_sdk.Prelude.{
  ℕ, suc, ◌+◌, ◌%◌, ◌<◌, ◌≡◌, refl, sym, ap, ◌∙◌, String, ◌⊎◌, none, List, [], ◌∷◌, ◌++◌, map,
  length, take, drop, set, length-set, take-set, drop-set, take-length, drop-length, lookup,
  lookup-append, delete, str_eq_iff, arith,
}
use mathlib.Core.List.{append-nil}
use native.Mathlib.Decide.{dec_lt}
use native.Mathlib.Nat.{mod-eq_of_lt}
use block_sdk.Sdk.{Tx}
use block_sdk.Utils.Decoder.{CacheTxDecoder}
use block_sdk.Utils.Decoder.Queue.{TxQueue, without_oldest}

abbrev pub keys : TxQueue → List String
keys q = map (λ (entry : String × Tx). entry.0) q

-- No key stands twice.
abbrev pub Distinct : TxQueue → Type 0
Distinct [] = Unit
Distinct ((key, tx) ∷ q) = (lookup key q ≡ none) × Distinct q

length-keys : (q : TxQueue) → length (keys q) ≡ length q
length-keys [] = refl
length-keys (entry ∷ q) = ap suc (length-keys q)

delete-absent : (key : String) (q : TxQueue) → lookup key q ≡ none → delete key q ≡ q
unfolding lookup delete
delete-absent key [] h = refl
delete-absent key ((k, t) ∷ q) h = ground (arith, delete-absent key q)

pub delete-first :
    (key : String) (tx : Tx) (q : TxQueue) → lookup key q ≡ none → delete key ((key, tx) ∷ q) ≡ q
unfolding delete
delete-first key tx q h = ground (arith, (str_eq_iff key key).1 refl, delete-absent key q)

pub lookup-rest :
    (key : String) (q : TxQueue) → lookup key q ≡ none → lookup key (without_oldest q) ≡ none
unfolding lookup
lookup-rest key [] h = h
lookup-rest key ((k, t) ∷ q) h = ground arith

pub Distinct-append :
    (q : TxQueue) (key : String) (tx : Tx)
    → Distinct q
    → lookup key q ≡ none
    → Distinct (q ++ (key, tx) ∷ [])
unfolding lookup
Distinct-append [] key tx d h = (refl, tt)
Distinct-append ((k, t) ∷ q) key tx d h = (
  ground (arith, lookup-append k q key tx, str_eq_iff k key, str_eq_iff key k, d.0),
  Distinct-append q key tx d.1 (ground arith),
)

Distinct-rest : (q : TxQueue) → Distinct q → Distinct (without_oldest q)
Distinct-rest [] d = tt
Distinct-rest (entry ∷ q) d = d.1

pub keys-append :
    (q : TxQueue) (key : String) (tx : Tx) → keys (q ++ (key, tx) ∷ []) ≡ keys q ++ key ∷ []
keys-append [] key tx = refl
keys-append (entry ∷ q) key tx = ap (◌∷◌ entry.0) (keys-append q key tx)

-- The cache is not full: its keys are the first ones of the window.
pub record IsFilling (ctd : CacheTxDecoder) : Type 0 where
  pub free : length ctd.cache < ctd.max_size
  pub oldest : ctd.oldest_index ≡ 0
  pub next : ctd.insert_index ≡ length ctd.cache
  pub order : keys ctd.cache ≡ take ctd.insert_index ctd.window

-- The cache is full: its keys are those of the window, from the oldest one on and round the end.
pub record IsFull (ctd : CacheTxDecoder) : Type 0 where
  pub full : length ctd.cache ≡ ctd.max_size
  pub next : ctd.insert_index ≡ ctd.oldest_index
  pub within : ctd.oldest_index < ctd.max_size
  pub order : keys ctd.cache ≡ drop ctd.oldest_index ctd.window ++ take ctd.oldest_index ctd.window

pub record IsRing (ctd : CacheTxDecoder) : Type 0 where
  pub room : 0 < ctd.max_size
  pub sized : length ctd.window ≡ ctd.max_size
  pub distinct : Distinct ctd.cache
  pub place : IsFilling ctd ⊎ IsFull ctd

pub mod_at_end : (i max : ℕ) → i + 1 ≡ max → (i + 1) % max ≡ 0
mod_at_end i max h = grind arith

pub ∷-injective :
    (x y : String) (xs ys : List String)
    → ◌≡◌ {A = List String} (x ∷ xs) (y ∷ ys)
    → (x ≡ y) × (xs ≡ ys)
∷-injective x y xs ys h = (cc, cc)

-- A write at the last index: the window is what stands up to it.
pub wrapped :
    (w : List String) (i : ℕ) (key : String)
    → i + 1 ≡ length w
    → take (i + 1) (set w i key) ≡ set w i key ++ []
wrapped w i key h =
    ap (λ n. take n (set w i key)) (h ∙ sym (length-set w i key))
    ∙ take-length (set w i key)
    ∙ sym (append-nil (set w i key))

-- A write at the oldest index, and the step of that index.
pub turned :
    (w : List String) (o max : ℕ) (key : String)
    → length w ≡ max
    → o < max
    → drop (o + 1) w ++ (take o w ++ key ∷ [])
      ≡ drop ((o + 1) % max) (set w o key) ++ take ((o + 1) % max) (set w o key)
turned w o max key sized within =
    ap (λ ks. drop (o + 1) w ++ ks) (sym (take-set w o key (omega arith)))
    ∙ ap (λ ks. ks ++ take (o + 1) (set w o key)) (sym (drop-set w o key))
    ∙ elim (dec_lt (o + 1) max) [
      | yes p ↦ ap (λ n. drop n (set w o key) ++ take n (set w o key)) (sym (mod-eq_of_lt p))
      | no p ↦
          let last : o + 1 ≡ max = omega arith in
          let all : o + 1 ≡ length (set w o key) = last ∙ sym sized ∙ sym (length-set w o key) in
          ap (λ n. drop n (set w o key) ++ take (o + 1) (set w o key)) all
          ∙ ap (λ ks. ks ++ take (o + 1) (set w o key)) (drop-length (set w o key))
          ∙ wrapped w o key (omega arith)
          ∙ ap (λ n. drop n (set w o key) ++ take n (set w o key)) (sym (mod_at_end o max last))
    ]

-- ===== src/Utils/Decoder/Store.antt =====
-- block/utils/decoder.go: what storing a transaction leaves of the cache and its window.
use block_sdk.Prelude.{
  ℕ, ◌+◌, ◌%◌, ◌≡◌, refl, sym, ap, ◌∙◌, subst, String, ◌⊎◌, inl, inr, none, some, [], ◌∷◌, ◌++◌,
  length, length-append, take, drop, set, get_elem?, length-set, take-set, drop-eq-cons, lookup,
  insert-new, delete, arith,
}
use mathlib.Core.List.{append_assoc}
use native.Mathlib.Decide.{dec_lt}
use native.Mathlib.Nat.{mod-eq_of_lt, mod-lt}
use block_sdk.Sdk.{Tx}
use block_sdk.Utils.Decoder.{CacheTxDecoder, decoded, purge_entry, purge, write_entry, store_tx}
use block_sdk.Utils.Decoder.Queue.{TxQueue, without_oldest, queue_push}
use block_sdk.Utils.Decoder.Ring.{
  keys, Distinct, delete-first, lookup-rest, Distinct-append, keys-append, ∷-injective, mod_at_end,
  wrapped, turned, IsFilling, IsFull, IsRing,
}

-- The state after a transaction is stored, by the indices that the source steps.
module _ (ctd : CacheTxDecoder) (key : String) (tx : Tx) where
  abbrev stored : TxQueue → ℕ → CacheTxDecoder
  stored rest oldest = record ctd {
    cache = rest ++ (key, tx) ∷ [];
    window = set ctd.window ctd.insert_index key;
    insert_index = (ctd.insert_index + 1) % ctd.max_size;
    oldest_index = oldest;
  }

  -- What a stored transaction leaves: the queue with it, and the ring.
  abbrev pub Stored : Type 0
  Stored =
      (ctd' : CacheTxDecoder) × (store_tx key tx ctd ≡ (decoded tx, ctd'))
      × (ctd'.cache ≡ queue_push ctd.max_size key tx ctd.cache)
      × (ctd'.max_size ≡ ctd.max_size)
      × IsRing ctd'

  module _ (ring : IsRing ctd) (new : lookup key ctd.cache ≡ none) where
    filling_order :
        IsFilling ctd
        → keys (ctd.cache ++ (key, tx) ∷ [])
          ≡ take (ctd.insert_index + 1) (set ctd.window ctd.insert_index key)
    filling_order f =
        keys-append ctd.cache key tx
        ∙ ap (λ ks. ks ++ key ∷ []) f.order
        ∙ sym (take-set ctd.window ctd.insert_index key (omega (arith, f, ring)))

    IsFilling-place :
        IsFilling ctd
        → IsFilling (stored ctd.cache ctd.oldest_index) ⊎ IsFull (stored ctd.cache ctd.oldest_index)
    IsFilling-place f = elim (dec_lt (ctd.insert_index + 1) ctd.max_size) [
      | yes p ↦ inl (record {
        free = omega (arith, length-append {0} ctd.cache ((key, tx) ∷ []));
        oldest = f.oldest;
        next = mod-eq_of_lt p ∙ omega (arith, length-append {0} ctd.cache ((key, tx) ∷ []));
        order = rw (mod-eq_of_lt p) (filling_order f);
      })
      | no p ↦ inr (record {
        full = omega (arith, length-append {0} ctd.cache ((key, tx) ∷ []));
        next = mod_at_end ctd.insert_index ctd.max_size (omega arith) ∙ sym f.oldest;
        within = rw f.oldest ring.room;
        order =
            filling_order f
            ∙ wrapped ctd.window ctd.insert_index key (omega (arith, ring.sized))
            ∙ ap
                (λ o.
                  drop o (set ctd.window ctd.insert_index key)
                  ++ take o (set ctd.window ctd.insert_index key))
                (sym f.oldest);
      })
    ]

    -- the first entry of a full cache stands at the oldest index
    full_entry :
        (key₀ : String) (tx₀ : Tx) (q : TxQueue)
        → ctd.cache ≡ (key₀, tx₀) ∷ q
        → IsFull ctd
        → (get_elem? ctd.window ctd.oldest_index ≡ some key₀)
          × (keys q ≡ drop (ctd.oldest_index + 1) ctd.window ++ take ctd.oldest_index ctd.window)
    full_entry key₀ tx₀ q e f =
        let (x, at, cut) =
          drop-eq-cons ctd.window ctd.oldest_index (omega (arith, ring.sized, f.within)) in
        let whole =
          ap keys (sym e) ∙ f.order ∙ ap (λ ks. ks ++ take ctd.oldest_index ctd.window) cut in
        let (same, rest) = ∷-injective key₀ x (keys q) _ whole in (at ∙ ap some (sym same), rest)

    IsFull-place :
        (key₀ : String) (tx₀ : Tx) (q : TxQueue)
        → ctd.cache ≡ (key₀, tx₀) ∷ q
        → IsFull ctd
        → IsFull (stored q ((ctd.oldest_index + 1) % ctd.max_size))
    IsFull-place key₀ tx₀ q e f = record {
      full = omega (arith, length-append {0} q ((key, tx) ∷ []), ap length e, f.full);
      next = ap (λ i. (i + 1) % ctd.max_size) f.next;
      within = mod-lt (ctd.oldest_index + 1) ring.room;
      order =
          keys-append q key tx
          ∙ ap (λ ks. ks ++ key ∷ []) (full_entry key₀ tx₀ q e f).1
          ∙ append_assoc (drop (ctd.oldest_index + 1) ctd.window) (take ctd.oldest_index ctd.window)
              (key ∷ [])
          ∙ turned ctd.window ctd.oldest_index ctd.max_size key ring.sized f.within
          ∙ ap
              (λ i.
                drop ((ctd.oldest_index + 1) % ctd.max_size) (set ctd.window i key)
                ++ take ((ctd.oldest_index + 1) % ctd.max_size) (set ctd.window i key))
              (sym f.next);
    }

    IsRing-of :
        (q : TxQueue) (oldest : ℕ)
        → Distinct q
        → lookup key q ≡ none
        → IsFilling (stored q oldest) ⊎ IsFull (stored q oldest)
        → IsRing (stored q oldest)
    IsRing-of q oldest d absent place = record {
      room = ring.room;
      sized = length-set ctd.window ctd.insert_index key ∙ ring.sized;
      distinct = Distinct-append q key tx d absent;
      place = place;
    }

    store_filling : IsFilling ctd → Stored
    unfolding store_tx purge write_entry
    store_filling f = (
      stored ctd.cache ctd.oldest_index,
      ground (arith, f, ring.sized, insert-new key tx ctd.cache),
      ground (arith, f),
      refl,
      IsRing-of ctd.cache ctd.oldest_index ring.distinct new (IsFilling-place f),
    )

    store_full :
        (key₀ : String) (tx₀ : Tx) (q : TxQueue) → ctd.cache ≡ (key₀, tx₀) ∷ q → IsFull ctd → Stored
    unfolding store_tx purge write_entry purge_entry
    store_full key₀ tx₀ q e f =
        let d = subst Distinct e ring.distinct in
        let absent =
          subst (λ c. lookup key (without_oldest c) ≡ none) e (lookup-rest key ctd.cache new) in
        let deleted = ap (delete key₀) e ∙ delete-first key₀ tx₀ q d.0 in
        (
          stored q ((ctd.oldest_index + 1) % ctd.max_size),
          ground (
            arith,
            f,
            (full_entry key₀ tx₀ q e f).0,
            ring.sized,
            deleted,
            insert-new key tx q absent,
          ),
          ground (arith, f, e),
          refl,
          IsRing-of q ((ctd.oldest_index + 1) % ctd.max_size) d.1 absent
              (inr (IsFull-place key₀ tx₀ q e f)),
        )

    store_place : (q : TxQueue) → ctd.cache ≡ q → IsFull ctd → Stored
    store_place [] e f = absurd (omega (arith, ap length e, ring.room, f.full))
    store_place ((key₀, tx₀) ∷ q) e f = store_full key₀ tx₀ q e f

    -- Storing a transaction whose hash is not a key of the ring pushes it on the queue.
    pub store-IsRing : Stored
    store-IsRing = elim ring.place [
      | inl f ↦ store_filling f
      | inr f ↦ store_place ctd.cache refl f
    ]

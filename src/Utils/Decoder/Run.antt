-- ===== src/Utils/Decoder/Run.antt =====
-- block/utils/decoder.go: any sequence of calls of the caching decoder.
use block_sdk.Prelude.{
  ℕ, ◌≤◌, ◌<◌, ◌≡◌, refl, sym, ap, ◌∙◌, subst, String, inl, inr, Option-cases, some, List, [], ◌∷◌,
  length, length-replicate, lookup, Result, ok, Result-cases, ok-injective, arith,
}
use block_sdk.Proposals.{Bytes}
use block_sdk.Sdk.{Tx}
use block_sdk.Utils.Decoder.{
  CacheTxDecoder, Decoded, decoded, new_cache_tx_decoder, tx_decoder, decoder_len,
}
use block_sdk.Utils.Decoder.Queue.{TxQueue, queue_decode}
use block_sdk.Utils.Decoder.Ring.{IsRing}
use block_sdk.Utils.Decoder.Store.{store-IsRing}

module _ (hash : Bytes → String) (decoder : Bytes → Result String Tx) where
  -- The results of calls, one after the other, and the decoder after them.
  unfoldable pub run_decoder : List Bytes → CacheTxDecoder → List Decoded × CacheTxDecoder
  run_decoder [] ctd = ([], ctd)
  run_decoder (tx_bytes ∷ calls) ctd =
      let (res, ctd') = tx_decoder hash decoder tx_bytes ctd in
      let (results, last) = run_decoder calls ctd' in (res ∷ results, last)

  -- The same calls of the queue.
  unfoldable pub run_queue : ℕ → List Bytes → TxQueue → List Decoded × TxQueue
  run_queue max [] q = ([], q)
  run_queue max (tx_bytes ∷ calls) q =
      let (res, q') = queue_decode hash decoder max tx_bytes q in
      let (results, last) = run_queue max calls q' in (res ∷ results, last)

  -- One call of a ring is one call of the queue of its entries, and leaves a ring.
  pub tx_decoder_refines :
      (tx_bytes : Bytes) (ctd : CacheTxDecoder)
      → IsRing ctd
      → let (res, ctd') = tx_decoder hash decoder tx_bytes ctd in
        ((res, ctd'.cache) ≡ queue_decode hash decoder ctd.max_size tx_bytes ctd.cache)
        × (ctd'.max_size ≡ ctd.max_size)
        × IsRing ctd'
  unfolding tx_decoder queue_decode
  tx_decoder_refines tx_bytes ctd ring = elim (Option-cases (lookup (hash tx_bytes) ctd.cache)) [
    | inr (tx, hit) ↦ rw (hit, tx_decoder, queue_decode) (refl, refl, ring)
    | inl miss ↦ elim (Result-cases (decoder tx_bytes)) [
      | inr (e, bad) ↦ rw (miss, bad, tx_decoder, queue_decode) (refl, refl, ring)
      | inl (tx, good) ↦
          let (ctd', done, pushed, same, ring') = store-IsRing ctd (hash tx_bytes) tx ring miss in
          rw (miss, good, done, tx_decoder, queue_decode)
            (ap (λ q. (decoded tx, q)) pushed, same, ring')
    ]
  ]

  pub run_decoder_refines :
      (calls : List Bytes) (max : ℕ) (ctd : CacheTxDecoder)
      → ctd.max_size ≡ max
      → IsRing ctd
      → let (results, ctd') = run_decoder calls ctd in
        ((results, ctd'.cache) ≡ run_queue max calls ctd.cache)
        × (ctd'.max_size ≡ max)
        × IsRing ctd'
  unfolding run_decoder run_queue
  run_decoder_refines [] max ctd e ring = (refl, e, ring)
  run_decoder_refines (tx_bytes ∷ calls) max ctd e ring =
      let (step, same, ring') = tx_decoder_refines tx_bytes ctd ring in
      let (rest, kept, ring'') =
        run_decoder_refines calls max (tx_decoder hash decoder tx_bytes ctd).1 (same ∙ e) ring' in
      let step' = step ∙ ap (λ m. queue_decode hash decoder m tx_bytes ctd.cache) e in
      (
        ap (λ (r : List Decoded × TxQueue). ((tx_decoder hash decoder tx_bytes ctd).0 ∷ r.0, r.1))
              rest
            ∙ ap
                (λ (r : Decoded × TxQueue).
                  let (results, last) = run_queue max calls r.1 in (r.0 ∷ results, last))
                step',
        kept,
        ring'',
      )

  -- the decoder that `NewCacheTxDecoder` returns
  new-IsRing :
      (max : ℕ) (ctd : CacheTxDecoder)
      → 0 < max
      → new_cache_tx_decoder (some decoder) max ≡ ok ctd
      → (ctd.cache ≡ []) × (ctd.max_size ≡ max) × IsRing ctd
  unfolding new_cache_tx_decoder
  new-IsRing max ctd room h =
      let e = ok-injective _ ctd h in
      (
        ap (λ (c : CacheTxDecoder). c.cache) (sym e),
        ap (λ (c : CacheTxDecoder). c.max_size) (sym e),
        subst IsRing e (record {
          room = room;
          sized = length-replicate max "";
          distinct = tt;
          place = inl (record { free = room; oldest = refl; next = refl; order = refl });
        }),
      )

  length-IsRing : (ctd : CacheTxDecoder) → IsRing ctd → length ctd.cache ≤ ctd.max_size
  length-IsRing ctd ring = ground (arith, ring.place)

  -- After any calls a decoder with room for a transaction is a ring that holds what the queue holds.
  pub run-IsRing :
      (max : ℕ) (ctd : CacheTxDecoder) (calls : List Bytes)
      → 0 < max
      → new_cache_tx_decoder (some decoder) max ≡ ok ctd
      → let (results, ctd') = run_decoder calls ctd in
        ((results, ctd'.cache) ≡ run_queue max calls []) × (ctd'.max_size ≡ max) × IsRing ctd'
  run-IsRing max ctd calls room h =
      let (empty, same, ring) = new-IsRing max ctd room h in
      let (held, kept, ring') = run_decoder_refines calls max ctd same ring in
      (held ∙ ap (run_queue max calls) empty, kept, ring')

  -- For a size that is not 0, any calls of a decoder that `NewCacheTxDecoder` returns give the
  -- results of the bounded queue, which looks a transaction up by its hash, or decodes it and puts
  -- it at the end, where it is full without its oldest one; the cache holds what the queue holds,
  -- and at most as many transactions as the size.
  pub run_decoder-run_queue :
      (max : ℕ) (ctd : CacheTxDecoder) (calls : List Bytes)
      → 0 < max
      → new_cache_tx_decoder (some decoder) max ≡ ok ctd
      → let (results, ctd') = run_decoder calls ctd in
        ((results, ctd'.cache) ≡ run_queue max calls []) × (decoder_len ctd' ≤ max)
  unfolding decoder_len
  run_decoder-run_queue max ctd calls room h =
      let (held, kept, ring) = run-IsRing max ctd calls room h in
      (held, omega (arith, length-IsRing _ ring, kept))

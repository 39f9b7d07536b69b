-- ===== src/Utils/Decoder/Transparency.antt =====
-- block/utils/decoder.go: the caching decoder returns what the decoder that it wraps returns.
use block_sdk.Prelude.{
  ℕ, ◌<◌, ◌≡◌, refl, ap, ◌∙◌, subst, String, Bool-cases, inl, inr, Option-cases, some, List, [],
  ◌∷◌, map, All, All-append, lookup, str_eq, str_eq_iff, leb, length, Result, ok, err, Result-cases,
}
use block_sdk.Proposals.{Bytes}
use block_sdk.Sdk.{Tx}
use block_sdk.Utils.Decoder.{CacheTxDecoder, Decoded, decoded, decode_failed, new_cache_tx_decoder}
use block_sdk.Utils.Decoder.Queue.{TxQueue, without_oldest, queue_push, queue_decode}
use block_sdk.Utils.Decoder.Run.{run_decoder, run_queue, run-IsRing}

All-rest {κ} : (P : String × Tx → Type κ) (q : TxQueue) → All P q → All P (without_oldest q)
All-rest P [] h = tt
All-rest P (entry ∷ q) h = h.1

All-lookup {κ} :
    (P : String × Tx → Type κ) (key : String) (q : TxQueue) (tx : Tx)
    → All P q
    → lookup key q ≡ some tx
    → P (key, tx)
unfolding lookup
All-lookup P key [] tx h e = cc
All-lookup P key ((k, t) ∷ q) tx h e = elim (Bool-cases (str_eq k key)) [
  | inl same ↦
      let found = rw same at e in
      let same_entry : ◌≡◌ {A = String × Tx} (k, t) (key, tx) =
        λ i. ((str_eq_iff k key).0 same i, (let same_tx : t ≡ tx = cc in same_tx i)) in
      subst P same_entry h.0
  | inr apart ↦ All-lookup P key q tx h.1 (rw apart at e)
]

-- What the wrapped decoder answers.
unfoldable pub decode_directly : (Bytes → Result String Tx) → Bytes → Decoded
decode_directly decoder tx_bytes = elim (decoder tx_bytes) [
  | err e ↦ decode_failed e
  | ok tx ↦ decoded tx
]

module _ (hash : Bytes → String) (decoder : Bytes → Result String Tx) (S : Bytes → Type 0)
    (no_collision : (a b : Bytes) → S a → S b → hash a ≡ hash b → a ≡ b) where
  -- The entry is that of bytes of the set, by their hash.
  abbrev IsEntry : String × Tx → Type 0
  IsEntry entry = (b : Bytes) × S b × (hash b ≡ entry.0) × (decoder b ≡ ok entry.1)

  push-IsEntry :
      (max : ℕ) (key : String) (tx : Tx) (q : TxQueue)
      → IsEntry (key, tx)
      → All IsEntry q
      → All IsEntry (queue_push max key tx q)
  push-IsEntry max key tx q new h = elim (Bool-cases (leb max (length q))) [
    | inl full ↦
        rw full
          (All-append IsEntry (without_oldest q) ((key, tx) ∷ []) (All-rest IsEntry q h) (new, tt))
    | inr free ↦ rw free (All-append IsEntry q ((key, tx) ∷ []) h (new, tt))
  ]

  decode_step :
      (max : ℕ) (tx_bytes : Bytes) (q : TxQueue)
      → S tx_bytes
      → All IsEntry q
      → let (res, q') = queue_decode hash decoder max tx_bytes q in
        (res ≡ decode_directly decoder tx_bytes) × All IsEntry q'
  unfolding queue_decode decode_directly
  decode_step max tx_bytes q member h = elim (Option-cases (lookup (hash tx_bytes) q)) [
    | inr (tx, hit) ↦
        let (b, inside, same, good) = All-lookup IsEntry (hash tx_bytes) q tx h hit in
        let good' =
          subst (λ c. decoder c ≡ ok tx) (no_collision b tx_bytes inside member same) good in
        rw (hit, good', queue_decode, decode_directly) (refl, h)
    | inl miss ↦ elim (Result-cases (decoder tx_bytes)) [
      | inr (e, bad) ↦ rw (miss, bad, queue_decode, decode_directly) (refl, h)
      | inl (tx, good) ↦
          rw (miss, good, queue_decode, decode_directly)
            (refl, push-IsEntry max (hash tx_bytes) tx q (tx_bytes, member, refl, good) h)
    ]
  ]

  run_step :
      (max : ℕ) (calls : List Bytes) (q : TxQueue)
      → All S calls
      → All IsEntry q
      → (run_queue hash decoder max calls q).0 ≡ map (decode_directly decoder) calls
  unfolding run_queue
  run_step max [] q members h = refl
  run_step max (tx_bytes ∷ calls) q members h =
      let (same, h') = decode_step max tx_bytes q members.0 h in
      let rest = run_step max calls (queue_decode hash decoder max tx_bytes q).1 members.1 h' in
      λ i. same i ∷ rest i

  -- Where no two byte strings of a set have the same hash, and the size is not 0, any calls of a
  -- decoder that `NewCacheTxDecoder` returns, on byte strings of the set, return what the wrapped
  -- decoder returns, errors included, and none panics.
  pub run_decoder-decode_directly :
      (max : ℕ) (ctd : CacheTxDecoder) (calls : List Bytes)
      → 0 < max
      → new_cache_tx_decoder (some decoder) max ≡ ok ctd
      → All S calls
      → (run_decoder hash decoder calls ctd).0 ≡ map (decode_directly decoder) calls
  run_decoder-decode_directly max ctd calls room h members =
      ap (λ (r : List Decoded × TxQueue). r.0) (run-IsRing hash decoder max ctd calls room h).0
      ∙ run_step max calls [] members tt

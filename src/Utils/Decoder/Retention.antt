-- ===== src/Utils/Decoder/Retention.antt =====
-- block/utils/decoder.go: how long a transaction stays in the cache.
use block_sdk.Prelude.{
  ℕ, suc, ◌+◌, ◌≤◌, ◌<◌, ◌≡◌, refl, sym, ap, ◌∙◌, subst, String, true, false, Bool-cases, inl, inr,
  Option-cases, none, some, List, [], ◌∷◌, ◌++◌, lookup, str_eq, str_eq_iff, leb, length,
  length-append, Result, ok, Result-cases, arith, if◌then◌else◌,
}
use mathlib.Core.List.{append_assoc}
use block_sdk.Proposals.{Bytes}
use block_sdk.Sdk.{Tx}
use block_sdk.Utils.Decoder.{
  CacheTxDecoder, Decoded, new_cache_tx_decoder, tx_decoder, decoder_contains,
}
use block_sdk.Utils.Decoder.Queue.{TxQueue, without_oldest, queue_push, queue_decode}
use block_sdk.Utils.Decoder.Run.{
  run_decoder, run_queue, run-IsRing, run_decoder_refines, tx_decoder_refines,
}

-- The key stands in the queue, with at most `n` entries behind it.
abbrev IsRecent : String → ℕ → TxQueue → Type 0
IsRecent key n q =
    (before after : TxQueue) × (tx : Tx) × (q ≡ before ++ (key, tx) ∷ after) × (length after ≤ n)

lookup-middle :
    (key : String) (before after : TxQueue) (tx : Tx)
    → (found : Tx) × (lookup key (before ++ (key, tx) ∷ after) ≡ some found)
unfolding lookup
lookup-middle key [] after tx = (tx, ground (arith, (str_eq_iff key key).1 refl))
lookup-middle key ((k, t) ∷ before) after tx =
    let (found, e) = lookup-middle key before after tx in
    elim (Bool-cases (str_eq k key)) [ inl same ↦ (t, rw same) | inr apart ↦ (found, rw apart e) ]

IsRecent-later :
    (key : String) (n m : ℕ) (q : TxQueue) → n ≤ m → IsRecent key n q → IsRecent key m q
IsRecent-later key n m q h (before, after, tx, e, few) = (before, after, tx, e, omega arith)

-- A push drops the entry only if it is the first of a full queue.
push-IsRecent :
    (max : ℕ) (k : String) (t : Tx) (key : String) (n : ℕ) (before after : TxQueue) (tx : Tx)
    → suc n < max
    → length after ≤ n
    → IsRecent key (suc n) (queue_push max k t (before ++ (key, tx) ∷ after))
push-IsRecent max k t key n [] after tx h few = (
  [],
  after ++ (k, t) ∷ [],
  tx,
  ground arith,
  omega (arith, length-append {0} after ((k, t) ∷ [])),
)
push-IsRecent max k t key n (entry ∷ before) after tx h few =
    elim (Bool-cases (leb max (length ((entry ∷ before) ++ (key, tx) ∷ after)))) [
      | inl full ↦ (
        before,
        after ++ (k, t) ∷ [],
        tx,
        rw full (append_assoc before ((key, tx) ∷ after) ((k, t) ∷ [])),
        omega (arith, length-append {0} after ((k, t) ∷ [])),
      )
      | inr free ↦ (
        entry ∷ before,
        after ++ (k, t) ∷ [],
        tx,
        rw free (append_assoc (entry ∷ before) ((key, tx) ∷ after) ((k, t) ∷ [])),
        omega (arith, length-append {0} after ((k, t) ∷ [])),
      )
    ]

module _ (hash : Bytes → String) (decoder : Bytes → Result String Tx) where
  decode-IsRecent :
      (max : ℕ) (tx_bytes : Bytes) (key : String) (n : ℕ) (q : TxQueue)
      → suc n < max
      → IsRecent key n q
      → IsRecent key (suc n) (queue_decode hash decoder max tx_bytes q).1
  unfolding queue_decode
  decode-IsRecent max tx_bytes key n q h (before, after, tx, e, few) =
      elim (Option-cases (lookup (hash tx_bytes) q)) [
        | inr (t, hit) ↦ rw (hit, queue_decode) (before, after, tx, e, omega arith)
        | inl miss ↦ elim (Result-cases (decoder tx_bytes)) [
          | inr (failure, bad) ↦ rw (miss, bad, queue_decode) (before, after, tx, e, omega arith)
          | inl (t, good) ↦
              rw (miss, good, queue_decode)
                (subst (λ c. IsRecent key (suc n) (queue_push max (hash tx_bytes) t c)) (sym e)
                  (push-IsRecent max (hash tx_bytes) t key n before after tx h few))
        ]
      ]

  run-IsRecent :
      (max : ℕ) (calls : List Bytes) (key : String) (n : ℕ) (q : TxQueue)
      → n + length calls < max
      → IsRecent key n q
      → IsRecent key (n + length calls) (run_queue hash decoder max calls q).1
  unfolding run_queue
  run-IsRecent max [] key n q h recent = IsRecent-later key n (n + 0) q (omega arith) recent
  run-IsRecent max (tx_bytes ∷ calls) key n q h recent =
      IsRecent-later key (suc n + length calls) (n + suc (length calls)) _ (omega arith) (
        run-IsRecent max calls key (suc n) (queue_decode hash decoder max tx_bytes q).1
          (omega arith) (decode-IsRecent max tx_bytes key n q (omega arith) recent))

  -- a transaction that is decoded and was not cached is the last one of the queue
  new-IsRecent :
      (max : ℕ) (tx_bytes : Bytes) (tx : Tx) (q : TxQueue)
      → lookup (hash tx_bytes) q ≡ none
      → decoder tx_bytes ≡ ok tx
      → IsRecent (hash tx_bytes) 0 (queue_decode hash decoder max tx_bytes q).1
  unfolding queue_decode
  new-IsRecent max tx_bytes tx q miss good =
      rw (miss, good, queue_decode)
        (if leb max (length q) then without_oldest q else q, [], tx, refl, omega arith)

  not_contained :
      (tx_bytes : Bytes) (ctd : CacheTxDecoder)
      → decoder_contains hash tx_bytes ctd ≡ false
      → lookup (hash tx_bytes) ctd.cache ≡ none
  unfolding decoder_contains
  not_contained tx_bytes ctd h = ground arith

  contained :
      (tx_bytes : Bytes) (n : ℕ) (ctd : CacheTxDecoder)
      → IsRecent (hash tx_bytes) n ctd.cache
      → decoder_contains hash tx_bytes ctd ≡ true
  unfolding decoder_contains
  contained tx_bytes n ctd (before, after, tx, e, few) =
      let (found, hit) = lookup-middle (hash tx_bytes) before after tx in
      let known : lookup (hash tx_bytes) ctd.cache ≡ some found =
        ap (lookup (hash tx_bytes)) e ∙ hit in
      ground (arith, known)

  -- A transaction that the wrapped decoder decodes, and that is not cached after some calls of a
  -- decoder of a size that is not 0, is cached by the next call on it, and stays so during any
  -- further calls that are fewer than the size.
  pub decoder_contains-run :
      (max : ℕ) (ctd : CacheTxDecoder) (earlier later : List Bytes) (tx_bytes : Bytes) (tx : Tx)
      → 0 < max
      → new_cache_tx_decoder (some decoder) max ≡ ok ctd
      → decoder tx_bytes ≡ ok tx
      → decoder_contains hash tx_bytes (run_decoder hash decoder earlier ctd).1 ≡ false
      → length later < max
      → decoder_contains hash tx_bytes
          (run_decoder hash decoder later
            (tx_decoder hash decoder tx_bytes (run_decoder hash decoder earlier ctd).1).1).1
        ≡ true
  decoder_contains-run max ctd earlier later tx_bytes tx room h good absent few =
      let start = (run_decoder hash decoder earlier ctd).1 in
      let (_, size, ring) = run-IsRing hash decoder max ctd earlier room h in
      let (step, kept, ring') = tx_decoder_refines hash decoder tx_bytes start ring in
      let added = (tx_decoder hash decoder tx_bytes start).1 in
      let (held, _, _) = run_decoder_refines hash decoder later max added (kept ∙ size) ring' in
      let recent =
        subst (IsRecent (hash tx_bytes) 0) (sym (ap (λ (r : Decoded × TxQueue). r.1) step)) (
          new-IsRecent start.max_size tx_bytes tx start.cache (not_contained tx_bytes start absent)
            good) in
      let last = run-IsRecent max later (hash tx_bytes) 0 added.cache (omega arith) recent in
      contained tx_bytes (0 + length later) (run_decoder hash decoder later added).1 (
        subst (IsRecent (hash tx_bytes) (0 + length later))
          (sym (ap (λ (r : List Decoded × TxQueue). r.1) held)) last)

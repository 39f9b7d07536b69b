-- ===== src/Utils/Decoder/Queue.antt =====
-- What the caching decoder promises: a bounded queue of transactions with their hashes, the oldest
-- first. It is stated without the window and its indices.
use block_sdk.Prelude.{
  ℕ, String, none, some, List, [], ◌∷◌, ◌++◌, leb, length, lookup, Result, ok, err, if◌then◌else◌,
}
use block_sdk.Proposals.{Bytes}
use block_sdk.Sdk.{Tx}
use block_sdk.Utils.Decoder.{Decoded, decoded, decode_failed}

abbrev pub TxQueue : Type 0
TxQueue = List (String × Tx)

abbrev pub without_oldest : TxQueue → TxQueue
without_oldest [] = []
without_oldest (entry ∷ q) = q

-- A full queue loses its oldest transaction to a new one.
abbrev pub queue_push : ℕ → String → Tx → TxQueue → TxQueue
queue_push max key tx q = (if leb max (length q) then without_oldest q else q) ++ (key, tx) ∷ []

-- Looked up, or decoded and put at the end.
unfoldable pub queue_decode :
    (Bytes → String) → (Bytes → Result String Tx) → ℕ → Bytes → TxQueue → Decoded × TxQueue
queue_decode hash decoder max tx_bytes q = elim (lookup (hash tx_bytes) q) [
  | some tx ↦ (decoded tx, q)
  | none ↦ elim (decoder tx_bytes) [
    | err e ↦ (decode_failed e, q)
    | ok tx ↦ (decoded tx, queue_push max (hash tx_bytes) tx q)
  ]
]

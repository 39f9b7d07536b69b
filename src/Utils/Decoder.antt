-- ===== src/Utils/Decoder.antt =====
-- block/utils/decoder.go: `CacheTxDecoder`. The hash of CometBFT and the decoder that is wrapped are
-- parameters. The mutex makes each call one step; an index out of range is a panic.
pub mod Queue
pub mod Ring
pub mod Store
pub mod Run
pub mod Transparency
pub mod Retention
use block_sdk.Prelude.{
  ℕ, ◌+◌, ◌%◌, String, Bool, true, false, Option, none, some, List, [], ltb, leb, length, set,
  get_elem?, replicate, lookup, insert, delete, Result, ok, err, if◌then◌else◌,
}
use block_sdk.Proposals.{Bytes}
use block_sdk.Sdk.{Tx}

-- `CacheTxDecoder`, less its mutex and its decoder; a Go map is the list of its entries.
pub record CacheTxDecoder : Type 0 where
  pub cache : List (String × Tx)
  pub window : List String
  pub insert_index : ℕ
  pub oldest_index : ℕ
  pub max_size : ℕ

-- How a call of the decoder ends.
pub data Decoded : Type 0 where
  decoded : Tx → Decoded
  decode_failed : String → Decoded
  decode_panic : Decoded

-- `NewCacheTxDecoder`; a nil decoder is `none`.
unfoldable pub new_cache_tx_decoder :
    Option (Bytes → Result String Tx) → ℕ → Result String CacheTxDecoder
new_cache_tx_decoder none max_size = err "decoder cannot be nil"
new_cache_tx_decoder (some decoder) max_size = ok (record {
  cache = [];
  window = replicate max_size "";
  insert_index = 0;
  oldest_index = 0;
  max_size = max_size;
})

-- `DefaultMaxSize`
abbrev pub default_max_size : ℕ
default_max_size = 500

-- `NewDefaultCacheTxDecoder`
unfoldable pub new_default_cache_tx_decoder :
    Option (Bytes → Result String Tx) → Result String CacheTxDecoder
unfolding new_cache_tx_decoder
new_default_cache_tx_decoder decoder = new_cache_tx_decoder decoder default_max_size

-- `delete(ctd.cache, entry)` and the step of the oldest index
unfoldable pub purge_entry : CacheTxDecoder → String → CacheTxDecoder
purge_entry ctd entry = record ctd {
  cache = delete entry ctd.cache;
  oldest_index = (ctd.oldest_index + 1) % ctd.max_size;
}

-- The purge of the cache, where it is full; `none` is the panic of `ctd.window[ctd.oldest_index]`.
unfoldable pub purge : CacheTxDecoder → Option CacheTxDecoder
purge ctd =
    if leb ctd.max_size (length ctd.cache)
    then elim (get_elem? ctd.window ctd.oldest_index) [
      | none ↦ none
      | some entry ↦ some (purge_entry ctd entry)
    ]
    else some ctd

-- The update of the cache and the window; the cache is written before an index can panic.
unfoldable pub write_entry : String → Tx → CacheTxDecoder → Decoded × CacheTxDecoder
write_entry hash tx ctd =
    if ltb ctd.insert_index (length ctd.window)
    then (
      decoded tx,
      record ctd {
        cache = insert hash tx ctd.cache;
        window = set ctd.window ctd.insert_index hash;
        insert_index = (ctd.insert_index + 1) % ctd.max_size;
      },
    )
    else (decode_panic, record ctd { cache = insert hash tx ctd.cache })

-- What follows a transaction that has been decoded.
unfoldable pub store_tx : String → Tx → CacheTxDecoder → Decoded × CacheTxDecoder
store_tx hash tx ctd = elim (purge ctd) [
  | none ↦ (decode_panic, ctd)
  | some ctd' ↦ write_entry hash tx ctd'
]

module _ (hash : Bytes → String) (decoder : Bytes → Result String Tx) where
  -- The closure that `TxDecoder` returns.
  unfoldable pub tx_decoder : Bytes → CacheTxDecoder → Decoded × CacheTxDecoder
  tx_decoder tx_bytes ctd = elim (lookup (hash tx_bytes) ctd.cache) [
    | some tx ↦ (decoded tx, ctd)
    | none ↦ elim (decoder tx_bytes) [
      | err e ↦ (decode_failed e, ctd)
      | ok tx ↦ store_tx (hash tx_bytes) tx ctd
    ]
  ]

-- `Len`
unfoldable pub decoder_len : CacheTxDecoder → ℕ
decoder_len ctd = length ctd.cache

-- `Contains`
unfoldable pub decoder_contains : (Bytes → String) → Bytes → CacheTxDecoder → Bool
decoder_contains hash tx_bytes ctd = elim (lookup (hash tx_bytes) ctd.cache) [
  | none ↦ false
  | some tx ↦ true
]

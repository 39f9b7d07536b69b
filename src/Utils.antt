-- ===== src/Utils.antt =====
-- block/utils: `GetEncodedTxs` and `GetTxHash` of utils.go; the caching decoder is in Utils/Decoder.
pub mod Decoder
use block_sdk.Prelude.{String, List, [], ◌∷◌, Result, ok, err, ◌>>=◌}
use block_sdk.Proposals.{Bytes}
use block_sdk.Sdk.{Tx}

-- `GetEncodedTxs`
unfoldable pub get_encoded_txs : (Tx → Result String Bytes) → List Tx → Result String (List Bytes)
get_encoded_txs tx_encoder [] = ok []
get_encoded_txs tx_encoder (tx ∷ txs) = do
  tx_bz ← tx_encoder tx
  encoded ← get_encoded_txs tx_encoder txs
  ok (tx_bz ∷ encoded)

-- `GetTxHash`, with `TxHash` as a parameter
unfoldable pub get_tx_hash :
    (Bytes → String) → (Tx → Result String Bytes) → Tx → Result String String
get_tx_hash hash encoder tx = do tx_bz ← encoder tx; ok (hash tx_bz)

-- ===== src/Base.antt =====
-- block/base: the lane and its configuration (lane.go, config.go), its view of a transaction
-- (tx_info.go), the ante check (`VerifyTx` of abci.go) and the match handlers (match.go);
-- the interface `LaneMempool` of block/lane.go.
pub mod Exact
pub mod Lane
pub mod Mempool
pub mod Select
pub mod Setup
pub mod Selection
pub mod Acceptance
pub mod RoundTrip
pub mod Replay
pub mod Progress
pub mod Pool
pub mod Process
use block_sdk.Prelude.{
  ℕ, String, Bool, true, false, Option, none, some, List, [], ◌∷◌, ℤ, pos, length, Result, ok, err,
  ◌>>=◌, map_err, if◌then◌else◌,
}
use block_sdk.Decimal.{DecOps}
use block_sdk.Proposals.{Bytes, TxWithInfo, SignerData}
use block_sdk.Sdk.{Tx}

pub data LaneError : Type 0 where
  encode_failed signers_failed ante_failed : String → LaneError
  not_a_fee_tx belongs_to_lane higher_priority : LaneError
  handler_failed : String → LaneError
  no_matches_failed verify_failed : LaneError → LaneError

-- `LaneConfig`, without the logger; a nil ante handler is `none`. The ante handler, the encoder,
-- the decoder and the signer extractor belong to the application.
pub record LaneConfig (Ctx LegacyDec : Type 0) : Type 0 where
  pub tx_encoder : Tx → Result String Bytes
  pub tx_decoder : Bytes → Result String Tx
  pub ante_handler : Option (Ctx → Tx → Bool → Result String Ctx)
  pub get_signers : Tx → Result String (List SignerData)
  pub max_block_space : LegacyDec

-- `LaneMempool`: what a lane asks of its mempool. A method that changes the mempool returns the new
-- one, and `select` the transactions in the order of the iterator.
pub record LaneMempool (Ctx M : Type 0) : Type 0 where
  pub insert : Ctx → Tx → M → Result String M
  pub remove : Tx → M → Result String M
  pub select : Ctx → M → List Tx
  pub count_tx : M → ℕ
  pub holds : M → Tx → Bool
  pub compare : M → Ctx → Tx → Tx → Result String ℤ

-- The parts that the lanes of one application share: the hash of CometBFT (upper-case hex), the
-- decimals of the SDK and the mempool implementation.
pub record Env (Ctx LegacyDec M : Type 0) : Type 0 where
  pub hash : Bytes → String
  pub ops : DecOps LegacyDec
  pub pool : LaneMempool Ctx M

abbrev pub MatchHandler : Type 0 → Type 0
MatchHandler Ctx = Ctx → Tx → Bool

-- The fields of `BaseLane` that its handlers read.
pub record LaneCore (Ctx LegacyDec M : Type 0) : Type 0 where
  pub cfg : LaneConfig Ctx LegacyDec
  pub lane_name : String
  pub mempool : M
  pub match_handler : MatchHandler Ctx

-- `DefaultMatchHandler`
unfoldable pub default_match_handler : {Ctx : Type 0} → MatchHandler Ctx
default_match_handler ctx tx = true

-- `NewMatchHandler`: its loop over the handlers to ignore
unfoldable pub new_match_handler :
    {Ctx : Type 0} → MatchHandler Ctx → List (MatchHandler Ctx) → MatchHandler Ctx
new_match_handler mh [] ctx tx = mh ctx tx
new_match_handler mh (ignore ∷ rest) ctx tx =
    if ignore ctx tx then false else new_match_handler mh rest ctx tx

fee_gas_of : Tx → Result LaneError ℕ
fee_gas_of tx = elim tx.fee_gas [ none ↦ err not_a_fee_tx | some gas ↦ ok gas ]

module _ {Ctx LegacyDec M : Type 0} (env : Env Ctx LegacyDec M)
    (lane : LaneCore Ctx LegacyDec M) where
  -- `GetTxInfo`
  unfoldable pub get_tx_info : Tx → Result LaneError TxWithInfo
  unfolding fee_gas_of
  get_tx_info tx = do
    tx_bytes ← map_err encode_failed (lane.cfg.tx_encoder tx)
    gas ← fee_gas_of tx
    signers ← map_err signers_failed (lane.cfg.get_signers tx)
    ok (record {
      hash = env.hash tx_bytes;
      size = pos (length tx_bytes);
      gas_limit = gas;
      tx_bytes = tx_bytes;
      signers = signers;
    })

  -- The loops over transactions that call `GetTxInfo` in `PrepareLane` and `ProcessLane`.
  unfoldable pub get_tx_infos : List Tx → Result LaneError (List TxWithInfo)
  get_tx_infos [] = ok []
  get_tx_infos (tx ∷ txs) = do info ← get_tx_info tx; infos ← get_tx_infos txs; ok (info ∷ infos)

  -- `VerifyTx`: the ante handler runs on a cached context, which is written only if it succeeds.
  unfoldable pub verify_tx : Ctx → Tx → Bool → Result LaneError Ctx
  verify_tx ctx tx simulate = elim lane.cfg.ante_handler [
    | none ↦ ok ctx
    | some ante ↦ map_err ante_failed (ante ctx tx simulate)
  ]

  -- `VerifyNoMatches`
  unfoldable pub verify_no_matches : Ctx → List Tx → Result LaneError Unit
  verify_no_matches ctx [] = ok tt
  verify_no_matches ctx (tx ∷ txs) =
      if lane.match_handler ctx tx then err belongs_to_lane else verify_no_matches ctx txs

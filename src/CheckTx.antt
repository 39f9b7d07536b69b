-- ===== src/CheckTx.antt =====
-- abci/checktx: requests and responses, the contexts of the checks (`GetContextForTx` and
-- `GetContextForBidTx`), and the `CheckTx` of check_tx.go.
pub mod Parity
pub mod Bid
pub mod Eviction
pub mod Accepted
pub mod Auctioned
pub mod Refused
pub mod Space
use block_sdk.Prelude.{
  ℕ, String, Bool, true, false, not, Option, none, some, ℤ, ◌==◌, ◌≡◌, ◌≢◌, Result, if◌then◌else◌,
}
use block_sdk.Proposals.{Bytes, BlockParams}
use block_sdk.Sdk.{Tx}

-- `CheckTxType` of CometBFT: a protobuf enum, which may hold another number.
pub data CheckTxType : Type 0 where
  new_tx recheck_tx : CheckTxType
  unknown_type : ℤ → CheckTxType

pub record RequestCheckTx : Type 0 where
  pub tx_bytes : Bytes
  pub check_type : CheckTxType

-- What the handlers read and write of a response.
pub record ResponseCheckTx : Type 0 where
  pub code : ℕ
  pub gas_wanted : ℤ
  pub gas_used : ℤ

-- One constructor for each `fmt.Errorf` of the handlers; `handler_error` is one of the wrapped
-- handler.
pub data CheckError : Type 0 where
  decode_failed bid_info_failed insert_failed handler_error : String → CheckError
  not_in_mempool no_lane check_panicked : CheckError
  tx_too_large : String → CheckError
  ante_failed unwrap_failed bundled_info_failed bundled_ante_failed : String → CheckError
  bundled_bid : CheckError

-- What a handler returns, where a nil response or error is `none`; or it panics.
pub data CheckOutcome : Type 0 where
  returned : Option ResponseCheckTx → Option CheckError → CheckOutcome
  check_panic : CheckOutcome

-- The application and its mempools.
pub record CheckState (A M : Type 0) : Type 0 where
  pub app : A
  pub pools : String → M

-- `CheckTx` of check_tx.go
abbrev pub CheckTx : Type 0 → Type 0 → Type 0
CheckTx A M = RequestCheckTx → CheckState A M → CheckOutcome × CheckState A M

-- What the handlers ask of the SDK and of the application.
pub record CheckHost (Ctx A : Type 0) : Type 0 where
  pub tx_decoder : Bytes → Result String Tx
  -- a cached context of the last committed state, with the height and the chain ID
  pub new_context : A → Ctx
  pub with_tx_bytes : Ctx → Bytes → Ctx
  pub with_event_manager : Ctx → Ctx
  pub with_is_check_tx : Ctx → Ctx
  pub with_is_recheck_tx : Ctx → Ctx
  pub get_consensus_params : A → Ctx → BlockParams
  pub with_consensus_params : Ctx → BlockParams → Ctx
  -- the first context, where the ante handler has written through its store what the second sees
  pub with_store : Ctx → Ctx → Ctx
  -- `ctx.ConsensusParams().GetBlock()`
  pub block_params : Ctx → BlockParams
  -- `ctx.GasMeter().Limit()` and `ctx.GasMeter().GasConsumed()`
  pub gas_limit : Ctx → ℕ
  pub gas_consumed : Ctx → ℕ
  -- `sdkerrors.ResponseCheckTxWithEvents`
  pub response_with_events : CheckError → ℕ → ℕ → ResponseCheckTx

-- The SDK documents that the code of an error is not zero.
pub record CheckLaws {Ctx A : Type 0} (host : CheckHost Ctx A) : Type 0 where
  pub error_code :
      (e : CheckError) (wanted used : ℕ) → (host.response_with_events e wanted used).code ≢ 0

-- `req.Type == cmtabci.CheckTxType_Recheck`
unfoldable pub is_recheck : RequestCheckTx → Bool
is_recheck req = elim req.check_type [ new_tx ↦ false | recheck_tx ↦ true | unknown_type n ↦ false ]

-- `isInvalidCheckTxExecution`
unfoldable pub is_invalid_check_tx_execution : Option ResponseCheckTx → Option CheckError → Bool
is_invalid_check_tx_execution none e = true
is_invalid_check_tx_execution (some response) none = not (response.code == 0)
is_invalid_check_tx_execution (some response) (some e) = true

module _ {Ctx A : Type 0} (host : CheckHost Ctx A) where
  -- the end of both functions
  with_request : A → RequestCheckTx → Ctx → Ctx
  with_request app req ctx =
      let described = host.with_event_manager (host.with_tx_bytes ctx req.tx_bytes) in
      host.with_consensus_params described (host.get_consensus_params app ctx)

  -- `GetContextForTx`
  unfoldable pub get_context_for_tx : A → RequestCheckTx → Ctx
  unfolding with_request
  get_context_for_tx app req = with_request app req (host.new_context app)

  -- `GetContextForBidTx`, where `none` is the panic on an unknown type
  unfoldable pub get_context_for_bid_tx : A → RequestCheckTx → Option Ctx
  unfolding with_request
  get_context_for_bid_tx app req = elim req.check_type [
    | new_tx ↦ some (with_request app req (host.with_is_check_tx (host.new_context app)))
    | recheck_tx ↦ some (with_request app req (host.with_is_recheck_tx (host.new_context app)))
    | unknown_type n ↦ none
  ]

-- ===== src/Ante.antt =====
-- x/auction/ante: `AuctionDecorator` (ante.go) and `ValidateTimeout` (utils.go). A context is the
-- state that the keeper reads and writes; its height and its mode of execution are parameters.
pub mod Accepted
use block_sdk.Prelude.{
  ℕ, String, Bool, true, false, Option, none, some, ℤ, pos, eqb_ℤ, wrap_int64, add_int64, Result,
  ok, err, ◌>>=◌, ◌>>◌, guard, map_err, if◌then◌else◌,
}
use block_sdk.Proposals.{Bytes}
use block_sdk.Sdk.{Coin, Tx}
use block_sdk.Auction.{AuctionError, BidInfo, CoinOps, Host}
use block_sdk.Auction.Bid.{validate_bid_info}
use block_sdk.Mev.Proposal.{bytes_eq}

-- `sdk.ExecMode`: the three modes that the program names, and the others
pub data ExecMode : Type 0 where
  exec_mode_check exec_mode_re_check exec_mode_simulate : ExecMode
  other_mode : ℕ → ExecMode

-- `nextHeightExecModes`
unfoldable pub is_next_height : ExecMode → Bool
is_next_height exec_mode_check = true
is_next_height exec_mode_re_check = true
is_next_height exec_mode_simulate = true
is_next_height (other_mode n) = false

pub data AnteError : Type 0 where
  no_bid_info no_encoding : String → AnteError
  timeout_mismatch : ℤ → ℤ → AnteError
  invalid_bid : AuctionError → AnteError
  next_failed : String → AnteError
  ante_panic : AnteError

-- The interface `MEVLane`; a nil bid or transaction is `none`.
pub record MevLane (S : Type 0) : Type 0 where
  pub get_auction_bid_info : Tx → Result String (Option BidInfo)
  pub get_top_auction_tx : S → Option Tx

-- `sdk.Coin{}`
abbrev pub no_coin : Coin
no_coin = record { denom = ""; amount = none }

-- `topBidInfo.Bid`
unfoldable pub bid_of : Option BidInfo → Result AnteError Coin
bid_of none = err ante_panic
bid_of (some info) = ok info.bid

module _ {S : Type 0} (block_height : S → ℤ) (exec_mode : S → ExecMode) where
  -- The height that a timeout is compared with.
  unfoldable pub expected_height : S → ℤ
  expected_height ctx =
      if is_next_height (exec_mode ctx)
      then add_int64 (block_height ctx) (pos 1)
      else block_height ctx

  -- `ValidateTimeout`
  unfoldable pub validate_timeout : S → ℤ → Result AnteError Unit
  validate_timeout ctx timeout =
      guard (eqb_ℤ (expected_height ctx) timeout) (timeout_mismatch timeout (expected_height ctx))

module _ {S : Type 0} (exec_mode : S → ExecMode) (tx_encoder : Tx → Result String Bytes)
    (lane : MevLane S) where
  -- The bid of the top transaction, unless it is the transaction itself.
  unfoldable pub other_bid : Tx → Tx → Result AnteError Coin
  other_bid tx top_bid_tx = do
    top_bid_bz ← map_err no_encoding (tx_encoder top_bid_tx)
    current_tx_bz ← map_err no_encoding (tx_encoder tx)
    if bytes_eq top_bid_bz current_tx_bz
        then ok no_coin
        else (map_err no_bid_info (lane.get_auction_bid_info top_bid_tx) >>= bid_of)

  -- The bid to compare with.
  unfoldable pub top_bid : S → Tx → Result AnteError Coin
  top_bid ctx tx =
      if is_next_height (exec_mode ctx)
      then elim (lane.get_top_auction_tx ctx) [
        | none ↦ ok no_coin
        | some top_bid_tx ↦ other_bid tx top_bid_tx
      ]
      else ok no_coin

module _ {S LegacyDec : Type 0} (host : Host S LegacyDec) (ops : CoinOps LegacyDec)
    (block_height : S → ℤ) (exec_mode : S → ExecMode) (tx_encoder : Tx → Result String Bytes)
    (lane : MevLane S) where
  -- The body of `if bidInfo != nil`; `ValidateBidInfo` changes the state behind the context.
  unfoldable pub check_bid_info : S → Tx → Option BidInfo → Result AnteError S
  check_bid_info ctx tx none = ok ctx
  check_bid_info ctx tx (some info) = do
    validate_timeout block_height exec_mode ctx (wrap_int64 (pos info.timeout))
    highest ← top_bid exec_mode tx_encoder lane ctx tx
    map_err invalid_bid (validate_bid_info host ops highest info ctx)

  -- `AnteHandle`
  unfoldable pub ante_handle :
      S → Tx → Bool → (S → Tx → Bool → Result AnteError S) → Result AnteError S
  ante_handle ctx tx simulate next = do
    bid_info ← map_err no_bid_info (lane.get_auction_bid_info tx)
    ctx' ← check_bid_info ctx tx bid_info
    next ctx' tx simulate

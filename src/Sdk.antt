-- ===== src/Sdk.antt =====
-- What the program sees of a transaction: the methods of `sdk.Tx` and of the interfaces that it
-- casts a transaction to, and the messages that it tells apart; the coins of the SDK.
use block_sdk.Prelude.{ℕ, String, Option, List, ℤ, Result}
use block_sdk.Proposals.{Bytes, SignerData}

-- `sdk.Coin`; the amount of a coin that is nil is `none`.
pub record Coin : Type 0 where
  pub denom : String
  pub amount : Option ℤ

-- `types.MsgAuctionBid` of x/auction
pub record MsgAuctionBid : Type 0 where
  pub bidder : String
  pub bid : Coin
  pub transactions : List Bytes

pub data Msg : Type 0 where
  auction_bid : MsgAuctionBid → Msg
  delegate begin_redelegate cancel_unbonding_delegation : Msg
  other_msg : String → Msg

-- A cast that fails is `none`; `body` stands for all else that an encoder reads.
pub record Tx : Type 0 where
  pub msgs : List Msg
  -- `tx.(sdk.FeeTx)`, `GetGas()`
  pub fee_gas : Option ℕ
  -- `tx.(TxWithTimeoutHeight)`, `GetTimeoutHeight()`
  pub timeout : Option ℕ
  -- `tx.(signing.SigVerifiableTx)`, `GetSignaturesV2()`: the addresses of the keys, and the sequences
  pub signatures : Option (Result String (List SignerData))
  pub body : Bytes

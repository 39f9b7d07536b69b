-- ===== src/Auction/Bid.antt =====
-- x/auction/keeper/auction.go: `ValidateBidInfo`, `ValidateAuctionBid`, `ExtractBid` and `SendBid`.
-- What was written before an error is not kept: a failed ante handler's context is dropped.
use block_sdk.Prelude.{
  ◌%◌, ◌^◌, String, Bool, true, false, not, Option, none, some, List, [], ◌∷◌, leb, length, str_eq,
  Result, ok, err, ◌>>=◌, ◌>>◌, guard, map_err, if◌then◌else◌,
}
use block_sdk.Sdk.{Coin}
use block_sdk.Auction.{
  AuctionError, sdk_error, bundle_too_large, nil_bid, wrong_denom, below_reserve,
  wrong_increment_denom, bid_too_low, panicked, Params, BidInfo, CoinOps, Host, get_params,
}
use block_sdk.Auction.Bundle.{validate_auction_bundle, validate_bundle_timeouts}

-- `Coin.IsNil`
unfoldable pub is_nil_coin : Coin → Bool
is_nil_coin coin = elim coin.amount [ none ↦ true | some _ ↦ false ]

-- `sdk.AccAddress(params.EscrowAccountAddress)`; the text of a nil address is empty.
unfoldable pub escrow_of : {LegacyDec : Type 0} → Params LegacyDec → String
escrow_of params = elim params.escrow_account_address [ none ↦ "" | some address ↦ address ]

-- An operation on coins that panics.
unfoldable pub or_panic : {A : Type 0} → Option A → Result AuctionError A
or_panic none = err panicked
or_panic (some value) = ok value

module _ {S LegacyDec : Type 0} (host : Host S LegacyDec) (ops : CoinOps LegacyDec) where
  unfoldable pub send_bid : String → String → List Coin → S → Result AuctionError S
  send_bid from to bid s =
      if str_eq host.module_address to
      then map_err sdk_error (host.send_coins_to_module from bid s)
      else map_err sdk_error (host.send_coins from to bid s)

  -- The rewards address; the escrow account where the provider fails.
  unfoldable pub rewards_of : Params LegacyDec → S → String
  rewards_of params s = elim (host.get_rewards_address s) [
    | err e ↦ escrow_of params
    | ok address ↦ address
  ]

  -- The branch of `ExtractBid` for a proposer fee: the share of the proposer is truncated before it
  -- is sent and subtracted.
  unfoldable pub split_bid : Params LegacyDec → String → Coin → S → Result AuctionError S
  unfolding or_panic
  split_bid params bidder bid s = do
    dec_bid ← or_panic (ops.new_dec_coins_from_coins (bid ∷ []))
    product ← or_panic (ops.mul_dec_truncate dec_bid params.proposer_fee)
    proposer_reward ← or_panic (ops.truncate_decimal product)
    s' ← send_bid bidder (rewards_of params s) proposer_reward s
    dec_reward ← or_panic (ops.new_dec_coins_from_coins proposer_reward)
    escrow_total ← or_panic (ops.sub_dec dec_bid dec_reward)
    escrow_reward ← or_panic (ops.truncate_decimal escrow_total)
    send_bid bidder (escrow_of params) escrow_reward s'

  unfoldable pub extract_bid : String → Coin → S → Result AuctionError S
  unfolding or_panic
  extract_bid bidder bid s = do
    params ← get_params host s
    let direct =
        or_panic (ops.new_coins bid) >>= λ coins. send_bid bidder (escrow_of params) coins s
    if ops.is_zero_fee params.proposer_fee then direct else split_bid params bidder bid s

  -- The comparison with the highest bid, where there is one.
  unfoldable pub check_increment : Coin → Coin → S → Result AuctionError Unit
  unfolding or_panic
  check_increment bid highest s = if is_nil_coin highest then ok tt else do
    params ← get_params host s
    guard (str_eq params.min_bid_increment.denom bid.denom) wrong_increment_denom
    min_bid ← or_panic (ops.add highest params.min_bid_increment)
    guard (ops.is_gte bid min_bid) bid_too_low

  unfoldable pub validate_auction_bid : String → Coin → Coin → S → Result AuctionError S
  validate_auction_bid bidder bid highest s = do
    guard (not (is_nil_coin bid)) nil_bid
    params ← get_params host s
    guard (str_eq bid.denom params.reserve_fee.denom) wrong_denom
    guard (ops.is_gte bid params.reserve_fee) below_reserve
    check_increment bid highest s
    extract_bid bidder bid s

  -- The front-running protection: the map of the first transaction is filtered in place, so the
  -- check of the timeouts reads what is left of it.
  unfoldable pub protect : Bool → BidInfo → Result AuctionError BidInfo
  protect false info = ok info
  protect true info = do
    signers ← validate_auction_bundle info.bidder info.signers
    ok (record info { signers = signers })

  unfoldable pub validate_bid_info : Coin → BidInfo → S → Result AuctionError S
  validate_bid_info highest info s = do
    params ← get_params host s
    guard (leb (length info.transactions % 2 ^ 32) params.max_bundle_size) bundle_too_large
    s' ← validate_auction_bid info.bidder info.bid highest s
    params' ← get_params host s'
    info' ← protect params'.front_running_protection info
    validate_bundle_timeouts info'
    ok s'

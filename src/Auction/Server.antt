-- ===== src/Auction/Server.antt =====
-- x/auction: `ValidateBasic` of the bid message (types/msgs.go), `Validate` of the parameters
-- (types/params.go) and `UpdateParams` of keeper/msg_server.go.
use block_sdk.Prelude.{
  ◌≡◌, String, Bool, true, false, not, none, some, List, [], ◌∷◌, str_eq, str_eq_iff, Result, ok,
  err, ◌>>◌, guard, guard-eq-ok, map_err, ok-injective, ◌≢◌, subst, refl,
}
use block_sdk.Proposals.{Bytes}
use block_sdk.Sdk.{Coin, MsgAuctionBid}
use block_sdk.Auction.{
  AuctionError, sdk_error, nil_bid, invalid_address, empty_bundle, empty_transaction, nil_escrow,
  zero_increment, mismatched_denoms, invalid_fee, not_authority, Params, Host, get_params,
  set_params,
}
use block_sdk.Auction.Bid.{is_nil_coin}

-- The loop over the transactions of the bid.
unfoldable pub check_transactions : List Bytes → Result AuctionError Unit
check_transactions [] = ok tt
check_transactions ([] ∷ txs) = err empty_transaction
check_transactions ((b ∷ bs) ∷ txs) = check_transactions txs

-- `len(m.Transactions) == 0`
unfoldable pub check_bundle : List Bytes → Result AuctionError Unit
check_bundle [] = err empty_bundle
check_bundle (tx ∷ txs) = check_transactions (tx ∷ txs)

-- `ValidateBasic` of a bid; the check of an address and of a coin are those of the SDK.
unfoldable pub validate_basic_bid :
    (String → Bool) → (Coin → Result String Unit) → MsgAuctionBid → Result AuctionError Unit
validate_basic_bid is_address validate_coin msg = do
  guard (is_address msg.bidder) invalid_address
  guard (not (is_nil_coin msg.bid)) nil_bid
  map_err sdk_error (validate_coin msg.bid)
  check_bundle msg.transactions

-- The operations of the SDK that the validation of the parameters calls: `Coin.Validate`, whether a
-- coin is at most zero of its denomination, and `IsNil`, `IsNegative` and `GT` one of the fee.
pub record ParamOps (LegacyDec : Type 0) : Type 0 where
  pub validate_coin : Coin → Result String Unit
  pub is_lte_zero : Coin → Bool
  pub is_nil_dec : LegacyDec → Bool
  pub is_negative : LegacyDec → Bool
  pub gt_one : LegacyDec → Bool

module _ {LegacyDec : Type 0} (ops : ParamOps LegacyDec) where
  unfoldable pub validate_fee : Coin → Result AuctionError Unit
  validate_fee fee = do
    guard (not (is_nil_coin fee)) invalid_fee
    map_err sdk_error (ops.validate_coin fee)

  unfoldable pub validate_proposer_fee : LegacyDec → Result AuctionError Unit
  validate_proposer_fee fee = do
    guard (not (ops.is_nil_dec fee)) invalid_fee
    guard (not (ops.is_negative fee)) invalid_fee
    guard (not (ops.gt_one fee)) invalid_fee

  unfoldable pub validate_params : Params LegacyDec → Result AuctionError Unit
  validate_params params = do
    guard (elim params.escrow_account_address [ none ↦ false | some _ ↦ true ]) nil_escrow
    validate_fee params.reserve_fee
    validate_fee params.min_bid_increment
    guard (not (ops.is_lte_zero params.min_bid_increment)) zero_increment
    guard (str_eq params.reserve_fee.denom params.min_bid_increment.denom) mismatched_denoms
    validate_proposer_fee params.proposer_fee

module _ {S LegacyDec : Type 0} (host : Host S LegacyDec) where
  -- `UpdateParams` with the authority of the message
  unfoldable pub update_params : String → Params LegacyDec → S → Result AuctionError S
  update_params authority params s = do
    guard (str_eq authority host.authority) not_authority
    set_params host params s

  read_params :
      (bz : Bytes) (params : Params LegacyDec) (s : S)
      → bz ≢ []
      → host.get s ≡ bz
      → host.unmarshal bz ≡ ok params
      → get_params host s ≡ ok params
  unfolding get_params
  read_params [] params s nonempty stored known = absurd (nonempty refl)
  read_params (b ∷ bs) params s nonempty stored known = rw (stored, get_params, known)

  -- Where the store returns the bytes of the parameters that it was given, which are not empty, and
  -- the codec reads the parameters back from them, an update succeeds only for the authority of the
  -- module, and the keeper then reads the new parameters.
  pub get_params-update_params :
      (authority : String) (params : Params LegacyDec) (bz : Bytes) (s s' : S)
      → host.marshal params ≡ ok bz
      → host.unmarshal bz ≡ ok params
      → bz ≢ []
      → host.get (host.set bz s) ≡ bz
      → update_params authority params s ≡ ok s'
      → (authority ≡ host.authority) × (get_params host s' ≡ ok params)
  unfolding update_params set_params
  get_params-update_params authority params bz s s' marshalled known nonempty stored h =
      let (allowed, h₁) =
        guard-eq-ok (str_eq authority host.authority) not_authority (set_params host params s) h in
      let h₂ = rw marshalled at h₁ in
      (
        (str_eq_iff authority host.authority).0 allowed,
        subst (λ t. get_params host t ≡ ok params) (ok-injective (host.set bz s) s' h₂)
            (read_params bz params (host.set bz s) nonempty stored known),
      )

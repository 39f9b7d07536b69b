-- ===== src/Mev.antt =====
-- lanes/mev: the default factory (factory.go, utils.go).
pub mod Proposal
pub mod Accepted
pub mod Contract
pub mod Selected
pub mod Verifier
pub mod First
pub mod RoundTrip
pub mod Splitting
pub mod Order
use block_sdk.Prelude.{
  ℕ, String, Bool, true, false, Option, none, some, List, [], ◌∷◌, map, length, ◌==◌, Result, ok,
  err, ◌>>=◌, ◌>>◌, guard, if◌then◌else◌,
}
use block_sdk.Proposals.{Bytes, SignerData}
use block_sdk.Sdk.{Msg, MsgAuctionBid, auction_bid, Tx}
use block_sdk.Auction.{BidInfo, Signers}

-- the messages of the transaction that are bids
auction_bids : List Msg → List MsgAuctionBid
auction_bids [] = []
auction_bids (auction_bid bid ∷ msgs) = bid ∷ auction_bids msgs
auction_bids (_ ∷ msgs) = auction_bids msgs

-- the `switch` of `GetMsgAuctionBidFromTx`, by the bids and the number of messages
single_bid : List MsgAuctionBid → ℕ → Result String (Option MsgAuctionBid)
single_bid [] n = ok none
single_bid (bid ∷ []) n = if n == 1 then ok (some bid) else err "invalid MsgAuctionBid transaction"
single_bid (_ ∷ _ ∷ _) n = err "invalid MsgAuctionBid transaction"

-- `GetMsgAuctionBidFromTx`
unfoldable pub get_msg_auction_bid_from_tx : Tx → Result String (Option MsgAuctionBid)
unfolding auction_bids single_bid
get_msg_auction_bid_from_tx tx = single_bid (auction_bids tx.msgs) (length tx.msgs)

-- `GetTimeoutHeight`
unfoldable pub get_timeout_height : Tx → Result String ℕ
get_timeout_height tx = elim tx.timeout [
  | none ↦ err "cannot extract timeout"
  | some height ↦ ok height
]

-- `Factory`, less its match handler
pub record Factory : Type 0 where
  pub wrap_bundle_transaction : Bytes → Result String Tx
  pub get_auction_bid_info : Tx → Result String (Option BidInfo)

module _ (decoder : Bytes → Result String Tx) (get_signers : Tx → Result String (List SignerData))
    (is_address : String → Bool) where
  -- `getBundleInfo`: the signers and the timeouts of the bundle
  unfoldable pub get_bundle_info : List Bytes → Result String (List Signers × List ℕ)
  get_bundle_info [] = ok ([], [])
  get_bundle_info (tx ∷ txs) = do
    sdk_tx ← decoder tx
    signers ← get_signers sdk_tx
    timeout ← get_timeout_height sdk_tx
    (all_signers, timeouts) ← get_bundle_info txs
    ok (map (λ (s : SignerData). s.signer) signers ∷ all_signers, timeout ∷ timeouts)

  -- `GetAuctionBidInfo`, once the message is known
  bid_info_of : Tx → Option MsgAuctionBid → Result String (Option BidInfo)
  bid_info_of tx none = ok none
  bid_info_of tx (some msg) = do
    guard (is_address msg.bidder) "invalid bidder address"
    height ← get_timeout_height tx
    (signers, timeouts) ← get_bundle_info msg.transactions
    ok (
        some (record {
          bidder = msg.bidder;
          bid = msg.bid;
          transactions = msg.transactions;
          timeout = height;
          signers = signers;
          transaction_timeouts = timeouts;
        }))

  -- `DefaultAuctionFactory`
  unfoldable pub default_factory : Factory
  unfolding bid_info_of
  default_factory = record {
    wrap_bundle_transaction = decoder;
    get_auction_bid_info = λ tx. get_msg_auction_bid_from_tx tx >>= bid_info_of tx;
  }

-- `MatchHandler` of the factory
unfoldable pub mev_match_handler : {Ctx : Type 0} → Factory → Ctx → Tx → Bool
mev_match_handler factory ctx tx = elim (factory.get_auction_bid_info tx) [
  | err e ↦ false
  | ok none ↦ false
  | ok (some _) ↦ true
]

-- ===== src/Auction/Bundle.antt =====
-- x/auction/keeper/auction.go: `ValidateAuctionBundle` and `ValidateBundleTimeouts`.
pub mod Order
pub mod Aliasing
use block_sdk.Prelude.{
  ℕ, String, Bool, true, false, List, [], ◌∷◌, ◌==◌, Result, ok, err, ◌>>=◌, ◌>>◌, has_key,
  if◌then◌else◌,
}
use block_sdk.Auction.{AuctionError, front_running, wrong_timeout, panicked, Signers, BidInfo}

-- `filterSigners`: the keys that stay in the first map
unfoldable pub filter_signers : Signers → Signers → Signers
filter_signers [] tx = []
filter_signers (s ∷ current) tx =
    let kept = filter_signers current tx in if has_key s tx then s ∷ kept else kept

-- one round of the loop below, by the filtered `prevSigners` and the result of the rounds after it
unfoldable pub bidder_round : Signers → Result AuctionError Unit → Result AuctionError Unit
bidder_round [] rest = err front_running
bidder_round (_ ∷ _) rest = rest

-- The loop once the bidder has taken over: `prevSigners` is a map of its own.
unfoldable pub check_bidder : Signers → List Signers → Result AuctionError Unit
check_bidder previous [] = ok tt
check_bidder previous (tx ∷ txs) =
    bidder_round (filter_signers previous tx) (check_bidder (filter_signers previous tx) txs)

-- one round of the loop below: the bidder takes over when no signer is left
unfoldable pub signers_round :
    Bool
    → Signers
    → Result AuctionError Unit
    → Result AuctionError Signers
    → Result AuctionError Signers
signers_round seen (_ ∷ _) taken_over rest = rest
signers_round true [] taken_over rest = err front_running
signers_round false [] taken_over rest = do taken_over; ok []

-- The loop before that: `prevSigners` is the map of the first transaction, which it filters in
-- place. The result is what is left of that map.
unfoldable pub check_signers : String → Bool → Signers → List Signers → Result AuctionError Signers
check_signers bidder seen previous [] = ok previous
check_signers bidder seen previous (tx ∷ txs) =
    signers_round seen (filter_signers previous tx) (check_bidder (bidder ∷ []) (tx ∷ txs))
      (check_signers bidder seen (filter_signers previous tx) txs)

-- `ValidateAuctionBundle`, with the signers as it leaves them
unfoldable pub validate_auction_bundle : String → List Signers → Result AuctionError (List Signers)
validate_auction_bundle bidder [] = ok []
validate_auction_bundle bidder (first ∷ []) = ok (first ∷ [])
validate_auction_bundle bidder (first ∷ tx ∷ txs) = do
  first' ← check_signers bidder (has_key bidder first) first (tx ∷ txs)
  ok (first' ∷ tx ∷ txs)

-- `ValidateBundleTimeouts`: its loop; an index out of range panics.
unfoldable pub check_timeouts : String → ℕ → List ℕ → List Signers → Result AuctionError Unit
check_timeouts bidder timeout [] signers = ok tt
check_timeouts bidder timeout (t ∷ ts) [] = err panicked
check_timeouts bidder timeout (t ∷ ts) (tx ∷ txs) =
    let rest = check_timeouts bidder timeout ts txs in
    if has_key bidder tx then (if t == timeout then rest else err wrong_timeout) else rest

unfoldable pub validate_bundle_timeouts : BidInfo → Result AuctionError Unit
validate_bundle_timeouts info =
    check_timeouts info.bidder info.timeout info.transaction_timeouts info.signers

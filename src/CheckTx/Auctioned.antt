-- ===== src/CheckTx/Auctioned.antt =====
-- abci/checktx/mev_check_tx.go with the decorator of x/auction/ante in the ante handler: what a bid
-- has to offer to enter the auction lane.
use block_sdk.Prelude.{
  ℕ, ◌+◌, ◌≤◌, ◌<◌, ◌%◌, ◌^◌, ◌≡◌, ◌≢◌, sym, refl, ◌∙◌, subst, String, Bool, true, false, some,
  List, ◌∷◌, ℤ, pos, length, Result, ok, map_err, map_err-eq-ok,
}
use block_sdk.Proposals.{Bytes}
use block_sdk.Sdk.{Tx}
use block_sdk.Auction.{Params, BidInfo, CoinOps, Host, get_params}
use block_sdk.Auction.Coins.{CoinLaws}
use block_sdk.Base.{Env}
use block_sdk.Base.Lane.{BaseLane}
use block_sdk.Mev.{Factory}
use block_sdk.Mev.Order.{get_top_auction_tx}
use block_sdk.Ante.{ExecMode, is_next_height, AnteError, MevLane, ante_handle}
use block_sdk.Ante.Accepted.{ante_handle-bounds}
use block_sdk.CheckTx.{
  RequestCheckTx, CheckState, CheckTx, CheckHost, CheckLaws, get_context_for_bid_tx,
}
use block_sdk.CheckTx.Bid.{mev_check_tx}
use block_sdk.CheckTx.Eviction.{refuses}
use block_sdk.CheckTx.Accepted.{IsAcceptedBid, mev_check_tx-IsAcceptedBid}

some_eq : {A : Type 0} (a b : A) → some a ≡ some b → a ≡ b
some_eq a b h = cc

top_of_select :
    {S LegacyDec M : Type 0} (env : Env S LegacyDec M) (ctx : S) (pool : M) (top : Tx)
    (others : List Tx)
    → env.pool.select ctx pool ≡ top ∷ others
    → get_top_auction_tx env ctx pool ≡ some top
unfolding get_top_auction_tx
top_of_select env ctx pool top others h = rw (h, get_top_auction_tx) refl

-- The methods of the auction lane that the decorator calls, over the state of its mempool.
unfoldable pub mev_lane_over :
    {S LegacyDec M : Type 0} → Env S LegacyDec M → Factory → M → MevLane S
mev_lane_over env factory pool = record {
  get_auction_bid_info = factory.get_auction_bid_info;
  get_top_auction_tx = λ ctx. get_top_auction_tx env ctx pool;
}

module _ {S LegacyDec M A : Type 0} (env : Env S LegacyDec M) (check_host : CheckHost S A)
    (factory : Factory) (mev_lane : BaseLane S LegacyDec M) (host : Host S LegacyDec)
    (ops : CoinOps LegacyDec) (block_height : S → ℤ) (exec_mode : S → ExecMode)
    (tx_encoder : Tx → Result String Bytes) (next : S → Tx → Bool → Result AnteError S)
    (text : AnteError → String) where
  -- The ante handler of the application: the decorator before other ones.
  unfoldable pub auction_ante : M → S → Tx → Bool → Result String S
  auction_ante pool ctx tx simulate = map_err text (
      ante_handle host ops block_height exec_mode tx_encoder (mev_lane_over env factory pool) ctx tx
        simulate next)

  -- Where the decorator of the auction stands before the other ante handlers and the context of the
  -- check is one of the next height, at a height `b` below the largest `int64`; where another
  -- transaction stands at the top of the mempool of the auction lane, with a bid of `h`; and where
  -- the parameters and the amounts are known: a bid that `MEVCheckTxHandler` does not refuse has the
  -- timeout `b + 1`, a bundle whose number of transactions modulo 2 ^ 32 is at most the allowed
  -- size, the denomination of the reserve fee, at least the reserve fee and at least `h` plus the
  -- increment; and it is accepted as `IsAcceptedBid` says: it and its bundle pass the ante handler,
  -- and the handler has inserted it into the auction lane and changed nothing else.
  pub mev_check_tx-bounds :
      CoinLaws ops
      → CheckLaws check_host
      → (check_tx_handler : CheckTx A M) (req : RequestCheckTx) (s : CheckState A M) (ctx : S)
        (tx top : Tx) (others : List Tx) (info top_info : BidInfo) (bz top_bz : Bytes)
        (params : Params LegacyDec) (b n h r i : ℕ)
      → check_host.tx_decoder req.tx_bytes ≡ ok tx
      → factory.get_auction_bid_info tx ≡ ok (some info)
      → get_context_for_bid_tx check_host s.app req ≡ some ctx
      → is_next_height (exec_mode ctx) ≡ true
      → block_height ctx ≡ pos b
      → b + 1 < 2 ^ 63
      → info.timeout < 2 ^ 64
      → env.pool.select ctx (s.pools mev_lane.lane_name) ≡ top ∷ others
      → factory.get_auction_bid_info top ≡ ok (some top_info)
      → tx_encoder tx ≡ ok bz
      → tx_encoder top ≡ ok top_bz
      → top_bz ≢ bz
      → get_params host ctx ≡ ok params
      → info.bid.amount ≡ some (pos n)
      → top_info.bid.amount ≡ some (pos h)
      → params.reserve_fee.amount ≡ some (pos r)
      → params.min_bid_increment.amount ≡ some (pos i)
      → let (outcome, s') =
          mev_check_tx env check_host factory
            (auction_ante (s.pools mev_lane.lane_name))
            mev_lane
            check_tx_handler
            req
            s in
        refuses outcome ≡ false
        → (info.timeout ≡ b + 1)
          × (length info.transactions % 2 ^ 32 ≤ params.max_bundle_size)
          × (info.bid.denom ≡ params.reserve_fee.denom)
          × (r ≤ n)
          × (h + i ≤ n)
          × IsAcceptedBid env check_host factory
              (auction_ante (s.pools mev_lane.lane_name))
              mev_lane
              req
              s
              s'
              tx
              info
  unfolding auction_ante mev_lane_over
  mev_check_tx-bounds laws host_laws check_tx_handler req s ctx tx top others info top_info bz
        top_bz params b n h r i decoded known context mode height below small at_top top_known
        encoded top_encoded other stored amount top_amount reserve increment accepted =
      let pool = s.pools mev_lane.lane_name in
      let bid =
        mev_check_tx-IsAcceptedBid env check_host factory (auction_ante pool) mev_lane host_laws
          check_tx_handler req s tx info decoded known accepted in
      let same : bid.ctx ≡ ctx = some_eq bid.ctx ctx (sym bid.context ∙ context) in
      let passes = subst (λ c. auction_ante pool c tx false ≡ ok bid.after) same bid.bid_passes in
      let (in_time, size, denoms, fee, more, _, _, _) =
        ante_handle-bounds host ops laws block_height exec_mode tx_encoder
          (mev_lane_over env factory pool) ctx bid.after tx top false next info top_info bz top_bz
          params b n h r i mode height below known small
          (top_of_select env ctx pool top others at_top) top_known encoded top_encoded other stored
          amount top_amount reserve increment (map_err-eq-ok text _ passes) in
      (in_time, size, denoms, fee, more, bid)

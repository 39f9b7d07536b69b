-- ===== src/CheckTx/Accepted.antt =====
-- abci/checktx/mev_check_tx.go: what the handler accepts and what it leaves in the auction lane.
use block_sdk.Prelude.{
  ℕ, ◌≡◌, refl, sym, ap, ◌∙◌, subst, String, Bool, true, false, Option, none, some, List, [], ◌∷◌,
  Result, ok, err, map_err, >>=-eq-ok, map_err-eq-ok, ok-injective, arith,
}
use block_sdk.Proposals.{Bytes}
use block_sdk.Sdk.{Tx}
use block_sdk.Auction.{BidInfo}
use block_sdk.Base.{Env}
use block_sdk.Base.Lane.{BaseLane, set_pool}
use block_sdk.Mev.{Factory}
use block_sdk.CheckTx.{
  RequestCheckTx, CheckError, unwrap_failed, bundled_info_failed, bundled_ante_failed,
  insert_failed, CheckOutcome, CheckState, CheckTx, CheckHost, CheckLaws,
  is_invalid_check_tx_execution, get_context_for_bid_tx,
}
use block_sdk.CheckTx.Bid.{
  GasInfo, no_bid, check_bundle, finish_validation, validate_bid_tx, finish_insert, settle_bid,
  check_bid, check_decoded, recover_check, mev_check_tx,
}
use block_sdk.CheckTx.Eviction.{refuses}

pub bid_invalid :
    {Ctx A : Type 0} (host : CheckHost Ctx A)
    → CheckLaws host
    → (e : CheckError) (wanted used : ℕ)
    → is_invalid_check_tx_execution (some (host.response_with_events e wanted used)) none ≡ true
unfolding is_invalid_check_tx_execution
bid_invalid host laws e wanted used = ground (arith, laws.error_code e wanted used)

module _ {Ctx LegacyDec M A : Type 0} (env : Env Ctx LegacyDec M) (host : CheckHost Ctx A)
    (factory : Factory) (ante_handler : Ctx → Tx → Bool → Result String Ctx)
    (mev_lane : BaseLane Ctx LegacyDec M) where
  -- The bundle runs from a context to another: each transaction of it is decoded, is not a bid, and
  -- passes the ante handler after those before it.
  pub data Runs : Ctx → List Bytes → Ctx → Type 0 where
    done : (ctx : Ctx) → Runs ctx [] ctx
    step :
        (ctx next last : Ctx) (bz : Bytes) (bzs : List Bytes) (tx : Tx)
        → factory.wrap_bundle_transaction bz ≡ ok tx
        → factory.get_auction_bid_info tx ≡ ok none
        → ante_handler ctx tx false ≡ ok next
        → Runs next bzs last
        → Runs ctx (bz ∷ bzs) last

  no_bid-eq-ok : (info : Option BidInfo) → no_bid info ≡ ok tt → info ≡ none
  unfolding no_bid
  no_bid-eq-ok none h = refl
  no_bid-eq-ok (some info) h = cc

  check_bundle-Runs :
      (ctx last : Ctx) (bzs : List Bytes)
      → check_bundle env host factory ante_handler mev_lane ctx bzs ≡ ok last
      → Runs ctx bzs last
  unfolding check_bundle
  check_bundle-Runs ctx last [] h = subst (Runs ctx []) (ok-injective ctx last h) (done ctx)
  check_bundle-Runs ctx last (bz ∷ bzs) h =
      let (tx, unwrapped, h₁) =
        >>=-eq-ok (map_err unwrap_failed (factory.wrap_bundle_transaction bz)) _ h in
      let (info, known, h₂) =
        >>=-eq-ok (map_err bundled_info_failed (factory.get_auction_bid_info tx)) _ h₁ in
      let (_, plain, h₃) = >>=-eq-ok (no_bid info) _ h₂ in
      let (next, passed, h₄) =
        >>=-eq-ok (map_err bundled_ante_failed (ante_handler ctx tx false)) _ h₃ in
      step ctx next last bz bzs tx (map_err-eq-ok unwrap_failed _ unwrapped)
        (map_err-eq-ok bundled_info_failed _ known ∙ ap ok (no_bid-eq-ok info plain))
        (map_err-eq-ok bundled_ante_failed _ passed) (check_bundle-Runs next last bzs h₄)

  -- A bid that is accepted: it and its bundle pass the ante handler one after the other, from a
  -- context of the committed state, and the bid is inserted into the auction lane on this context,
  -- with the store that the ante handler has written to.
  pub record IsAcceptedBid (req : RequestCheckTx) (s s' : CheckState A M) (tx : Tx) (info : BidInfo)
      : Type 0 where
    pub ctx : Ctx
    pub context : get_context_for_bid_tx host s.app req ≡ some ctx
    pub after : Ctx
    pub last : Ctx
    pub bid_passes : ante_handler ctx tx false ≡ ok after
    pub bundle_runs : Runs after info.transactions last
    pub pool : M
    pub inserted :
        env.pool.insert (host.with_store ctx last) tx (s.pools mev_lane.lane_name) ≡ ok pool
    pub state : s' ≡ record s { pools = set_pool s.pools mev_lane.lane_name pool }

  finish_validation-Runs :
      (ctx last : Ctx) (tx : Tx) (info : BidInfo) (r : Result String Ctx)
      → ante_handler ctx tx false ≡ r
      → (finish_validation env host factory ante_handler mev_lane info r).1 ≡ ok last
      → (after : Ctx) × (ante_handler ctx tx false ≡ ok after) × Runs after info.transactions last
  unfolding finish_validation
  finish_validation-Runs ctx last tx info (err e) ran h = cc
  finish_validation-Runs ctx last tx info (ok after) ran h =
      (after, ran, check_bundle-Runs after last info.transactions h)

  module _ (host_laws : CheckLaws host) where
    -- A result that is no refusal accepts the bid.
    abbrev Accepts :
        RequestCheckTx → CheckState A M → Tx → BidInfo → CheckOutcome × CheckState A M → Type 0
    Accepts req s tx info r = refuses r.0 ≡ false → IsAcceptedBid req s r.1 tx info

    module _ (req : RequestCheckTx) (s : CheckState A M) (tx : Tx) (info : BidInfo) (ctx : Ctx)
        (context : get_context_for_bid_tx host s.app req ≡ some ctx) where
      finish_insert-Accepts :
          (gas : GasInfo) (last : Ctx) (r : Result String M)
          → env.pool.insert (host.with_store ctx last) tx (s.pools mev_lane.lane_name) ≡ r
          → (validate_bid_tx env host factory ante_handler mev_lane ctx tx info).1 ≡ ok last
          → Accepts req s tx info (
              recover_check env host factory ante_handler mev_lane
                (finish_insert env host factory ante_handler mev_lane gas r s))
      unfolding recover_check finish_insert validate_bid_tx
      finish_insert-Accepts gas last (err e) insertion valid = λ accepted.
          absurd (
            ground
              (arith, bid_invalid host host_laws (insert_failed e) gas.gas_wanted gas.gas_used))
      finish_insert-Accepts gas last (ok pool) insertion valid =
          let (after, passes, runs) = finish_validation-Runs ctx last tx info _ refl valid in
          λ accepted. record {
            ctx = ctx;
            context = context;
            after = after;
            last = last;
            bid_passes = passes;
            bundle_runs = runs;
            pool = pool;
            inserted = insertion;
            state = refl;
          }

      settle_bid-Accepts :
          (v : GasInfo × Result CheckError Ctx)
          → validate_bid_tx env host factory ante_handler mev_lane ctx tx info ≡ v
          → Accepts req s tx info (
              recover_check env host factory ante_handler mev_lane
                (settle_bid env host factory ante_handler mev_lane ctx tx v s))
      unfolding settle_bid recover_check
      settle_bid-Accepts (gas, err e) valid = λ accepted.
          absurd (ground (arith, bid_invalid host host_laws e gas.gas_wanted gas.gas_used))
      settle_bid-Accepts (gas, ok last) valid =
          finish_insert-Accepts gas last _ refl
            (ap (λ (v : GasInfo × Result CheckError Ctx). v.1) valid)

    check_bid-Accepts :
        (req : RequestCheckTx) (s : CheckState A M) (tx : Tx) (info : BidInfo)
        (context : Option Ctx)
        → get_context_for_bid_tx host s.app req ≡ context
        → Accepts req s tx info (
            recover_check env host factory ante_handler mev_lane
              (check_bid env host factory ante_handler mev_lane tx info context s))
    unfolding check_bid recover_check is_invalid_check_tx_execution
    check_bid-Accepts req s tx info none e = λ h. absurd (ground arith)
    check_bid-Accepts req s tx info (some ctx) e = settle_bid-Accepts req s tx info ctx e _ refl

  pub mev_check_tx_bid :
      (check_tx_handler : CheckTx A M) (req : RequestCheckTx) (s : CheckState A M) (tx : Tx)
      (info : BidInfo)
      → host.tx_decoder req.tx_bytes ≡ ok tx
      → factory.get_auction_bid_info tx ≡ ok (some info)
      → mev_check_tx env host factory ante_handler mev_lane check_tx_handler req s
        ≡ recover_check env host factory ante_handler mev_lane (
            check_bid env host factory ante_handler mev_lane tx info
              (get_context_for_bid_tx host s.app req)
              s)
  unfolding mev_check_tx check_decoded
  mev_check_tx_bid check_tx_handler req s tx info decoded known =
      rw (decoded, mev_check_tx, check_decoded, known)

  -- A bid that the handler does not refuse passes the ante handler on a context of the committed
  -- state, and after it the transactions of its bundle do, one after the other; none of these is a
  -- bid; and the handler has inserted the bid into the auction lane on that context, with the
  -- store that the ante handler has written to, and changed nothing else. In particular the handler
  -- never panics on a bid.
  pub mev_check_tx-IsAcceptedBid :
      CheckLaws host
      → (check_tx_handler : CheckTx A M) (req : RequestCheckTx) (s : CheckState A M) (tx : Tx)
        (info : BidInfo)
      → host.tx_decoder req.tx_bytes ≡ ok tx
      → factory.get_auction_bid_info tx ≡ ok (some info)
      → refuses (mev_check_tx env host factory ante_handler mev_lane check_tx_handler req s).0
        ≡ false
      → IsAcceptedBid req s
          (mev_check_tx env host factory ante_handler mev_lane check_tx_handler req s).1
          tx
          info
  mev_check_tx-IsAcceptedBid host_laws check_tx_handler req s tx info decoded known =
      subst (Accepts host_laws req s tx info)
        (sym (mev_check_tx_bid check_tx_handler req s tx info decoded known))
        (check_bid-Accepts host_laws req s tx info _ refl)

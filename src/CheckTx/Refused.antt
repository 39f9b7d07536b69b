-- ===== src/CheckTx/Refused.antt =====
-- abci/checktx/mev_check_tx.go: the bids that the handler refuses.
use block_sdk.Prelude.{
  ◌≡◌, ◌≢◌, refl, sym, ap, ◌∙◌, subst, String, Bool, true, false, Bool-cases, inl, inr, some,
  Result, ok, err, str_eq_iff,
}
use block_sdk.Sdk.{Tx}
use block_sdk.Auction.{BidInfo}
use block_sdk.Base.{Env}
use block_sdk.Base.Lane.{BaseLane, set_pool}
use block_sdk.Mev.{Factory}
use block_sdk.CheckTx.{
  RequestCheckTx, CheckError, CheckOutcome, CheckState, CheckTx, CheckHost, CheckLaws,
  get_context_for_bid_tx,
}
use block_sdk.CheckTx.Bid.{
  GasInfo, validate_bid_tx, evict_bid, settle_bid, check_bid, recover_check, mev_check_tx,
}
use block_sdk.CheckTx.Eviction.{refuses}
use block_sdk.Mempool.Removal.{str_eq_apart}
use block_sdk.CheckTx.Accepted.{bid_invalid, mev_check_tx_bid}

module _ {Ctx LegacyDec M A : Type 0} (env : Env Ctx LegacyDec M) (host : CheckHost Ctx A)
    (factory : Factory) (ante_handler : Ctx → Tx → Bool → Result String Ctx)
    (mev_lane : BaseLane Ctx LegacyDec M) where
  -- The auction lane does not contain the transaction, and all else is as before.
  pub record IsWithout (s : CheckState A M) (tx : Tx) (s' : CheckState A M) : Type 0 where
    pub gone : env.pool.holds (s'.pools mev_lane.lane_name) tx ≡ false
    pub others : (name : String) → mev_lane.lane_name ≢ name → s'.pools name ≡ s.pools name
    pub same_app : s'.app ≡ s.app

  abbrev pub IsEvicted : CheckState A M → Tx → CheckOutcome × CheckState A M → Type 0
  IsEvicted s tx r = (refuses r.0 ≡ true) × IsWithout s tx r.1

  abbrev pub Removes : Tx → Type 0
  Removes tx =
      (pool : M)
      → env.pool.holds pool tx ≡ true
      → (pool' : M) × (env.pool.remove tx pool ≡ ok pool') × (env.pool.holds pool' tx ≡ false)

  evict_held :
      (s : CheckState A M) (tx : Tx)
      → Removes tx
      → env.pool.holds (s.pools mev_lane.lane_name) tx ≡ true
      → IsWithout s tx (evict_bid env host factory ante_handler mev_lane tx s)
  unfolding evict_bid
  evict_held s tx removes held =
      let name = mev_lane.lane_name in
      let (pool, removed, free) = removes (s.pools name) held in
      let left : CheckState A M = record s { pools = set_pool s.pools name pool } in
      let run : evict_bid env host factory ante_handler mev_lane tx s ≡ left =
        rw (held, evict_bid, removed) in
      subst (IsWithout s tx) (sym run) (record {
        gone = rw ((str_eq_iff name name).1 refl, free);
        others = λ other apart. rw (str_eq_apart name other apart);
        same_app = refl;
      })

  evict_absent :
      (s : CheckState A M) (tx : Tx)
      → env.pool.holds (s.pools mev_lane.lane_name) tx ≡ false
      → IsWithout s tx (evict_bid env host factory ante_handler mev_lane tx s)
  unfolding evict_bid
  evict_absent s tx absent =
      let run : evict_bid env host factory ante_handler mev_lane tx s ≡ s =
        rw (absent, evict_bid) in
      subst (IsWithout s tx) (sym run)
        (record { gone = absent; others = λ other apart. refl; same_app = refl })

  settle_bid-IsEvicted :
      CheckLaws host
      → (s : CheckState A M) (tx : Tx) (ctx : Ctx) (v : GasInfo × Result CheckError Ctx)
        (e : CheckError)
      → Removes tx
      → v.1 ≡ err e
      → IsEvicted s tx (
          recover_check env host factory ante_handler mev_lane
            (settle_bid env host factory ante_handler mev_lane ctx tx v s))
  unfolding settle_bid recover_check
  settle_bid-IsEvicted host_laws s tx ctx (gas, ok last) e removes failed = cc
  settle_bid-IsEvicted host_laws s tx ctx (gas, err e') e removes failed = (
    bid_invalid host host_laws e' gas.gas_wanted gas.gas_used,
    elim (Bool-cases (env.pool.holds (s.pools mev_lane.lane_name) tx)) [
      | inl held ↦ evict_held s tx removes held
      | inr absent ↦ evict_absent s tx absent
    ],
  )

  -- Where the auction lane removes what it contains: a bid whose ante check or whose bundle fails is
  -- refused, and the auction lane does not contain it afterwards; the other lanes and the
  -- application are as before.
  pub mev_check_tx_evicts :
      CheckLaws host
      → (check_tx_handler : CheckTx A M) (req : RequestCheckTx) (s : CheckState A M) (tx : Tx)
        (info : BidInfo) (ctx : Ctx) (e : CheckError)
      → Removes tx
      → host.tx_decoder req.tx_bytes ≡ ok tx
      → factory.get_auction_bid_info tx ≡ ok (some info)
      → get_context_for_bid_tx host s.app req ≡ some ctx
      → (validate_bid_tx env host factory ante_handler mev_lane ctx tx info).1 ≡ err e
      → IsEvicted s tx (mev_check_tx env host factory ante_handler mev_lane check_tx_handler req s)
  unfolding check_bid
  mev_check_tx_evicts host_laws check_tx_handler req s tx info ctx e removes decoded known context
        failed =
      subst (IsEvicted s tx)
        (sym (
          mev_check_tx_bid env host factory ante_handler mev_lane check_tx_handler req s tx info
            decoded known
          ∙ ap
              (λ o.
                recover_check env host factory ante_handler mev_lane
                  (check_bid env host factory ante_handler mev_lane tx info o s))
              context))
        (settle_bid-IsEvicted host_laws s tx ctx _ e removes failed)

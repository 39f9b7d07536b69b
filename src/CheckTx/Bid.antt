-- ===== src/CheckTx/Bid.antt =====
-- abci/checktx/mev_check_tx.go: `MEVCheckTxHandler`.
use block_sdk.Prelude.{
  ℕ, Bool, false, Option, none, some, List, [], ◌∷◌, pos, wrap_int64, Result, ok, err, ◌>>=◌,
  map_err, String, if◌then◌else◌,
}
use block_sdk.Proposals.{Bytes}
use block_sdk.Sdk.{Tx}
use block_sdk.Auction.{BidInfo}
use block_sdk.Base.{Env}
use block_sdk.Base.Lane.{BaseLane, set_pool}
use block_sdk.Mev.{Factory}
use block_sdk.CheckTx.{
  CheckError, decode_failed, bid_info_failed, insert_failed, check_panicked, ante_failed,
  unwrap_failed, bundled_info_failed, bundled_ante_failed, bundled_bid, CheckOutcome, returned,
  check_panic, CheckState, CheckTx, CheckHost, get_context_for_bid_tx,
}

-- `sdk.GasInfo`
pub record GasInfo : Type 0 where
  pub gas_wanted : ℕ
  pub gas_used : ℕ

abbrev pub no_gas : GasInfo
no_gas = record { gas_wanted = 0; gas_used = 0 }

-- the info of a bundled transaction must be nil
unfoldable pub no_bid : Option BidInfo → Result CheckError Unit
no_bid none = ok tt
no_bid (some info) = err bundled_bid

module _ {Ctx LegacyDec M A : Type 0} (env : Env Ctx LegacyDec M) (host : CheckHost Ctx A)
    (factory : Factory) (ante_handler : Ctx → Tx → Bool → Result String Ctx)
    (mev_lane : BaseLane Ctx LegacyDec M) where
  -- the loop of `ValidateBidTx` over the bundle
  unfoldable pub check_bundle : Ctx → List Bytes → Result CheckError Ctx
  check_bundle ctx [] = ok ctx
  check_bundle ctx (bz ∷ bzs) = do
    bundled_tx ← map_err unwrap_failed (factory.wrap_bundle_transaction bz)
    bid_info ← map_err bundled_info_failed (factory.get_auction_bid_info bundled_tx)
    _ ← no_bid bid_info
    ctx' ← map_err bundled_ante_failed (ante_handler ctx bundled_tx false)
    check_bundle ctx' bzs

  -- `ValidateBidTx` after the ante check of the bid: the gas is that of the bid also where the bundle
  -- fails.
  unfoldable pub finish_validation : BidInfo → Result String Ctx → GasInfo × Result CheckError Ctx
  finish_validation bid_info (err e) = (no_gas, err (ante_failed e))
  finish_validation bid_info (ok ctx) = (
    record { gas_wanted = host.gas_limit ctx; gas_used = host.gas_consumed ctx },
    check_bundle ctx bid_info.transactions,
  )

  unfoldable pub validate_bid_tx : Ctx → Tx → BidInfo → GasInfo × Result CheckError Ctx
  validate_bid_tx ctx bid_tx bid_info = finish_validation bid_info (ante_handler ctx bid_tx false)

  abbrev pub reject_bid : CheckError → GasInfo → CheckOutcome
  reject_bid e gas = returned (some (host.response_with_events e gas.gas_wanted gas.gas_used)) none

  abbrev pub accept_bid : GasInfo → CheckOutcome
  accept_bid gas =
      returned
        (some (record {
          code = 0;
          gas_wanted = wrap_int64 (pos gas.gas_wanted);
          gas_used = wrap_int64 (pos gas.gas_used);
        }))
        none

  -- `mevLane.Contains` and `mevLane.Remove`; an error of the removal is only logged.
  unfoldable pub evict_bid : Tx → CheckState A M → CheckState A M
  evict_bid tx s =
      let name = mev_lane.lane_name in
      if env.pool.holds (s.pools name) tx
      then elim (env.pool.remove tx (s.pools name)) [
        | err e ↦ s
        | ok pool ↦ record s { pools = set_pool s.pools name pool }
      ]
      else s

  -- the answer after `mevLane.Insert`
  unfoldable pub finish_insert :
      GasInfo → Result String M → CheckState A M → CheckOutcome × CheckState A M
  finish_insert gas (err e) s = (reject_bid (insert_failed e) gas, s)
  finish_insert gas (ok pool) s =
      (accept_bid gas, record s { pools = set_pool s.pools mev_lane.lane_name pool })

  -- The bid is inserted on the context of its verification: the values of the context are those from
  -- before, and its store is the one that the ante handler has written to.
  unfoldable pub settle_bid :
      Ctx → Tx → GasInfo × Result CheckError Ctx → CheckState A M → CheckOutcome × CheckState A M
  settle_bid ctx tx (gas, err e) s = (reject_bid e gas, evict_bid tx s)
  settle_bid ctx tx (gas, ok ctx') s =
      finish_insert gas (env.pool.insert (host.with_store ctx ctx') tx (s.pools mev_lane.lane_name))
        s

  -- the handler on a bid, by the context of `GetContextForBidTx`
  unfoldable pub check_bid :
      Tx → BidInfo → Option Ctx → CheckState A M → CheckOutcome × CheckState A M
  check_bid tx bid_info none s = (check_panic, s)
  check_bid tx bid_info (some ctx) s = settle_bid ctx tx (validate_bid_tx ctx tx bid_info) s

  -- the function without the deferred `recover`
  unfoldable pub check_decoded : CheckTx A M → CheckTx A M
  check_decoded check_tx_handler req s = elim (host.tx_decoder req.tx_bytes) [
    | err e ↦ (reject_bid (decode_failed e) no_gas, s)
    | ok tx ↦ elim (factory.get_auction_bid_info tx) [
      | err e ↦ (reject_bid (bid_info_failed e) no_gas, s)
      | ok none ↦ check_tx_handler req s
      | ok (some bid_info) ↦ check_bid tx bid_info (get_context_for_bid_tx host s.app req) s
    ]
  ]

  -- the deferred `recover`: a panic becomes an error and a response
  unfoldable pub recover_check : CheckOutcome × CheckState A M → CheckOutcome × CheckState A M
  recover_check (check_panic, s) =
      (returned (some (host.response_with_events check_panicked 0 0)) (some check_panicked), s)
  recover_check (returned res e, s) = (returned res e, s)

  -- `MEVCheckTxHandler.CheckTx`
  unfoldable pub mev_check_tx : CheckTx A M → CheckTx A M
  mev_check_tx check_tx_handler req s = recover_check (check_decoded check_tx_handler req s)

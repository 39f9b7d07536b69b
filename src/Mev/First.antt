-- ===== src/Mev/First.antt =====
-- lanes/mev/abci.go: which bid the `PrepareLaneHandler` of the auction lane selects.
use block_sdk.Prelude.{
  ◌≡◌, ◌⊎◌, inl, inr, refl, sym, ap, ◌∙◌, subst, List, [], ◌∷◌, ◌++◌, All, err, Result-cases,
}
use mathlib.Core.List.{append_assoc, append-nil}
use block_sdk.Proposals.{Proposal, LaneLimits}
use block_sdk.Sdk.{Tx}
use block_sdk.Base.{Env, LaneCore, LaneError}
use block_sdk.Base.Lane.{finished, Reaped}
use block_sdk.Mev.{Factory}
use block_sdk.Mev.Proposal.{try_bid, select_bid, mev_prepare_lane_handler}
use block_sdk.Mev.Selected.{IsSelectedBid, try_bid-IsSelectedBid}

module _ {Ctx LegacyDec M : Type 0} (env : Env Ctx LegacyDec M) (factory : Factory)
    (lane : LaneCore Ctx LegacyDec M) where
  -- A bid that the checks of `PrepareLaneHandler` refuse.
  abbrev pub IsRefused : Ctx → Proposal → LaneLimits → Tx → Type 0
  IsRefused ctx proposal limit tx =
      (e : LaneError) × (try_bid env factory lane ctx tx proposal limit ≡ err e)

  -- How the loop over the bids ends.
  abbrev pub IsFirstValid : Ctx → Proposal → LaneLimits → List Tx → List Tx → Reaped Ctx → Type 0
  IsFirstValid ctx proposal limit txs removed r =
      ((All (IsRefused ctx proposal limit) txs)
        × (r.to_include ≡ [])
        × (r.to_remove ≡ removed ++ txs)
        × (r.ctx ≡ ctx))
      ⊎ ((failed : List Tx) × (bid : Tx) × (later : List Tx) × (txs ≡ failed ++ bid ∷ later)
          × All (IsRefused ctx proposal limit) failed
          × (r.to_remove ≡ removed ++ failed)
          × IsSelectedBid env factory lane ctx proposal limit bid r.to_include r.ctx)

  past_refused :
      (ctx : Ctx) (proposal : Proposal) (limit : LaneLimits) (tx : Tx) (txs removed : List Tx)
      (r : Reaped Ctx)
      → IsRefused ctx proposal limit tx
      → IsFirstValid ctx proposal limit txs (removed ++ tx ∷ []) r
      → IsFirstValid ctx proposal limit (tx ∷ txs) removed r
  past_refused ctx proposal limit tx txs removed r refused (inl (others, nothing, out, same)) =
      inl ((refused, others), nothing, out ∙ append_assoc removed (tx ∷ []) txs, same)
  past_refused ctx proposal limit tx txs removed r refused
        (inr (failed, bid, later, split, others, out, chosen)) =
      inr (
        tx ∷ failed,
        bid,
        later,
        ap (◌∷◌ tx) split,
        (refused, others),
        out ∙ append_assoc removed (tx ∷ []) failed,
        chosen,
      )

  select_bid_past :
      (ctx : Ctx) (proposal : Proposal) (limit : LaneLimits) (tx : Tx) (txs removed : List Tx)
      (e : LaneError)
      → try_bid env factory lane ctx tx proposal limit ≡ err e
      → select_bid env factory lane ctx proposal limit (tx ∷ txs) removed
        ≡ select_bid env factory lane ctx proposal limit txs (removed ++ tx ∷ [])
  unfolding select_bid
  select_bid_past ctx proposal limit tx txs removed e refused = rw (refused, select_bid) refl

  select_bid-IsFirstValid :
      (ctx : Ctx) (proposal : Proposal) (limit : LaneLimits) (txs removed : List Tx)
      → IsFirstValid ctx proposal limit txs removed
          (select_bid env factory lane ctx proposal limit txs removed)
  unfolding select_bid
  select_bid-IsFirstValid ctx proposal limit [] removed =
      inl (tt, refl, sym (append-nil removed), refl)
  select_bid-IsFirstValid ctx proposal limit (tx ∷ txs) removed =
      elim (Result-cases (try_bid env factory lane ctx tx proposal limit)) [
        | inl ((included, c'), passes) ↦
            rw (passes, select_bid)
              (inr (
                [],
                tx,
                txs,
                refl,
                tt,
                sym (append-nil removed),
                try_bid-IsSelectedBid env factory lane ctx proposal limit tx included c' passes,
              ))
        | inr (e, refused) ↦
            subst (IsFirstValid ctx proposal limit (tx ∷ txs) removed)
              (sym (select_bid_past ctx proposal limit tx txs removed e refused))
              (past_refused ctx proposal limit tx txs removed _ (e, refused)
                (select_bid-IsFirstValid ctx proposal limit txs (removed ++ tx ∷ [])))
      ]

  -- The `PrepareLaneHandler` of the auction lane goes through the bids of its mempool, in the order
  -- of the iterator, to the first one that passes its checks. It includes that bid, followed by the
  -- transactions of its bundle in their order; none of them is in the proposal, their bytes and
  -- gas, as the machine sums them, are within the limits of the lane, and `VerifyBidTx` leads to
  -- the context that is left. The bids before it, which the checks refuse, are to be removed, and
  -- no other transaction. Where all are refused they are all to be removed, nothing is included and
  -- the context is as before.
  pub mev_prepare_lane_handler-IsFirstValid :
      (ctx : Ctx) (proposal : Proposal) (limit : LaneLimits)
      → (r : Reaped Ctx) × (mev_prepare_lane_handler env factory lane ctx proposal limit
          ≡ finished r)
        × IsFirstValid ctx proposal limit (env.pool.select ctx lane.mempool) [] r
  unfolding mev_prepare_lane_handler
  mev_prepare_lane_handler-IsFirstValid ctx proposal limit =
      let txs = env.pool.select ctx lane.mempool in
      (
        select_bid env factory lane ctx proposal limit txs [],
        refl,
        select_bid-IsFirstValid ctx proposal limit txs [],
      )

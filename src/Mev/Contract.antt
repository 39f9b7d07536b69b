-- ===== src/Mev/Contract.antt =====
-- lanes/mev/abci.go: a lane with the handlers of the auction lane keeps the contract of the chain.
use block_sdk.Prelude.{
  ◌≡◌, inl, inr, sym, ap, ◌∙◌, subst, String, true, false, List, [], ◌∷◌, ◌++◌, All, Result, ok,
}
use block_sdk.Proposals.{Bytes, Proposal, LaneLimits}
use block_sdk.Sdk.{Tx}
use block_sdk.Abci.Coherent.{Prepares, IsCoherent}
use block_sdk.Abci.Contract.{finished-injective, strangers-IsForeign}
use block_sdk.Base.{Env}
use block_sdk.Base.Lane.{finished, BaseLane, Reaped, core_of, split_of}
use block_sdk.Mev.{Factory}
use block_sdk.Mev.First.{IsFirstValid, mev_prepare_lane_handler-IsFirstValid}
use block_sdk.Mev.Proposal.{mev_prepare_lane_handler, mev_process_lane_handler}
use block_sdk.Mev.RoundTrip.{process_others, mev_process_lane_handler-mev_prepare_lane_handler}
use block_sdk.Mev.Selected.{Wrapped, IsSelectedBid}
use block_sdk.Mev.Splitting.{mev_process-IsSplitting}

module _ {Ctx LegacyDec M : Type 0} (env : Env Ctx LegacyDec M) (factory : Factory)
    (Owns : BaseLane Ctx LegacyDec M → Tx → Type 0) (encode : Tx → Result String Bytes)
    (lane : BaseLane Ctx LegacyDec M) (encoder : lane.cfg.tx_encoder ≡ encode)
    (prepares : lane.prepare_lane_handler ≡ mev_prepare_lane_handler env factory)
    (processes : lane.process_lane_handler ≡ mev_process_lane_handler env factory)
    (owns : (c : Ctx) (tx : Tx) → lane.match_handler c tx ≡ true → Owns lane tx)
    (owns_bundles : (bz : Bytes) (tx : Tx)
      → factory.wrap_bundle_transaction bz ≡ ok tx
      → Owns lane tx) where
  prepared :
      (pool : M) (c : Ctx) (p : Proposal) (limit : LaneLimits) (reaped : Reaped Ctx)
      → Prepares env lane pool c p limit reaped
      → mev_prepare_lane_handler env factory (core_of lane pool) c p limit ≡ finished reaped
  prepared pool c p limit reaped h = ap (λ f. f (core_of lane pool) c p limit) (sym prepares) ∙ h

  first_valid :
      (pool : M) (c : Ctx) (p : Proposal) (limit : LaneLimits) (reaped : Reaped Ctx)
      → Prepares env lane pool c p limit reaped
      → IsFirstValid env factory (core_of lane pool) c p limit (env.pool.select c pool) [] reaped
  first_valid pool c p limit reaped h =
      let (r, done, first) =
        mev_prepare_lane_handler-IsFirstValid env factory (core_of lane pool) c p limit in
      subst (IsFirstValid env factory (core_of lane pool) c p limit (env.pool.select c pool) [])
        (finished-injective r reaped (sym done ∙ prepared pool c p limit reaped h)) first

  bundle_owned :
      (pool : M) (bzs : List Bytes) (txs : List Tx)
      → Wrapped env factory (core_of lane pool) bzs txs
      → All (Owns lane) txs
  bundle_owned pool bzs [] w = tt
  bundle_owned pool [] (tx ∷ txs) w = absurd w
  bundle_owned pool (bz ∷ bzs) (tx ∷ txs) w =
      (owns_bundles bz tx w.0, bundle_owned pool bzs txs w.1)

  bid_owned :
      (pool : M) (c : Ctx) (p : Proposal) (limit : LaneLimits) (bid : Tx) (included : List Tx)
      (c' : Ctx)
      → IsSelectedBid env factory (core_of lane pool) c p limit bid included c'
      → All (Owns lane) included
  bid_owned pool c p limit bid included c' s =
      subst (All (Owns lane)) (sym s.in_order)
        (owns c bid s.matches, bundle_owned pool s.info.transactions s.bundle s.wrapped)

  included_owned :
      (pool : M) (c : Ctx) (p : Proposal) (limit : LaneLimits) (txs : List Tx) (reaped : Reaped Ctx)
      → IsFirstValid env factory (core_of lane pool) c p limit txs [] reaped
      → All (Owns lane) reaped.to_include
  included_owned pool c p limit txs reaped (inl (_, nothing, _, _)) =
      subst (All (Owns lane)) (sym nothing) tt
  included_owned pool c p limit txs reaped (inr (_, bid, _, _, _, _, chosen)) =
      bid_owned pool c p limit bid reaped.to_include reaped.ctx chosen

  context_kept :
      (pool : M) (c : Ctx) (p : Proposal) (limit : LaneLimits) (txs : List Tx) (reaped : Reaped Ctx)
      → IsFirstValid env factory (core_of lane pool) c p limit txs [] reaped
      → reaped.to_include ≡ []
      → reaped.ctx ≡ c
  context_kept pool c p limit txs reaped (inl (_, _, _, same)) nothing = same
  context_kept pool c p limit txs reaped (inr (_, bid, _, _, _, _, chosen)) nothing =
      absurd (let clash = sym nothing ∙ chosen.in_order in cc)

  process_eq :
      (other : M) (c : Ctx) (txs : List Tx)
      → lane.process_lane_handler (core_of lane other) c txs
        ≡ mev_process_lane_handler env factory (core_of lane other) c txs
  process_eq other c txs = ap (λ f. f (core_of lane other) c txs) processes

  process_none :
      (other : M) (c : Ctx) (rest : List Tx)
      → All (λ tx. lane.match_handler c tx ≡ false) rest
      → mev_process_lane_handler env factory (core_of lane other) c rest
        ≡ finished (record { from_lane = []; remaining = rest; ctx = c })
  unfolding mev_process_lane_handler split_of
  process_none other c rest foreign =
      ap (split_of env) (process_others env factory (core_of lane other) c rest foreign)

  -- A lane with the handlers of the auction lane and the encoder of the application keeps the contract
  -- of the chain, if it owns all that matches it and all that its factory makes of a bundle.
  pub mev-IsCoherent : IsCoherent env Owns encode lane
  mev-IsCoherent = record {
    splitting = mev_process-IsSplitting env factory encode lane encoder processes;
    owned = λ pool c p limit reaped h.
        included_owned pool c p limit _ reaped (first_valid pool c p limit reaped h);
    idle = λ pool c p limit reaped h.
        context_kept pool c p limit _ reaped (first_valid pool c p limit reaped h);
    accepts = λ pool other c p limit reaped rest h strangers.
        process_eq other c (reaped.to_include ++ rest)
        ∙ mev_process_lane_handler-mev_prepare_lane_handler env factory (core_of lane pool) c p
            limit reaped rest other (prepared pool c p limit reaped h)
            (λ nothing. strangers-IsForeign env lane pool c rest strangers);
    passes = λ other c rest strangers.
        process_eq other c rest
        ∙ process_none other c rest (strangers-IsForeign env lane other c rest strangers);
  }

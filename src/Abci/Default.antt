-- ===== src/Abci/Default.antt =====
-- abci: chains of lanes with the default handlers.
use block_sdk.Prelude.{
  ℕ, ◌^◌, ◌≤◌, ◌<◌, ◌≡◌, ◌≢◌, sym, ap, ◌∙◌, subst, List, [], ◌∷◌, pos, ok, ok-injective, arith,
}
use block_sdk.Decimal.{DecLaws, precision}
use block_sdk.Proposals.{Proposal, TxWithInfo, get_lane_limits}
use block_sdk.Proposals.Update.{update_proposal}
use block_sdk.Proposals.Totals.{bytes_of, total_bytes, gas_of}
use block_sdk.Proposals.Bounds.{IsValid, IsSafe, update_proposal-IsValid}
use block_sdk.Proposals.Limits.{get_lane_limits_bounds}
use block_sdk.Sdk.{Tx}
use block_sdk.Base.{Env}
use block_sdk.Base.Selection.{AreInfos, AreInfos-get_tx_infos}
use block_sdk.Base.Exact.{AreInfos-IsSized, default_prepare_lane_handler_sums}
use block_sdk.Base.Lane.{
  Outcome, finished, BaseLane, Lane, World, Reaped, core_of, info_of, add_to_proposal,
  default_prepare,
}
use block_sdk.Abci.{terminated, chain_prepare_lanes}
use block_sdk.Abci.Chain.{AllLanes, Reaps}
use block_sdk.Abci.Induction.{run_prepare_inv}
use block_sdk.Abci.Prepare.{
  terminated-IsTerminated, AllLanes-terminated, add_to_proposal-eq-ok, get_tx_infos_pool,
}

-- the transactions to include
abbrev included : {Ctx : Type 0} → Outcome (Reaped Ctx) → List Tx
included (finished reaped) = reaped.to_include
included _ = []

module _ {Ctx LegacyDec M : Type 0} (env : Env Ctx LegacyDec M) (laws : DecLaws env.ops) where
  -- A lane with the default handler of `NewBaseLane` and a share between 0 and 1.
  pub record IsDefault (lane : BaseLane Ctx LegacyDec M) : Type 0 where
    pub handler : lane.prepare_lane_handler ≡ default_prepare env
    pub share : ℕ
    pub share_units : laws.units lane.cfg.max_block_space ≡ pos share
    pub share_le : share ≤ precision

  -- A valid proposal for blocks of at most `m` bytes and `g` gas.
  abbrev pub IsValidFor : ℕ → ℕ → Proposal → Type 0
  IsValidFor m g p = IsValid p × (p.info.max_block_size ≡ pos m) × (p.info.max_gas_limit ≡ g)

  module _ (m g : ℕ) (small : m < 2 ^ 62) (gas_small : g < 2 ^ 63) where
    reaped_sums :
        (lane : BaseLane Ctx LegacyDec M) (w : World Ctx M) (reaped : Reaped Ctx) (p : Proposal)
        → IsDefault lane
        → Reaps env lane w p reaped
        → IsValidFor m g p
        → (infos : List TxWithInfo) × AreInfos env
            (core_of lane (w.pools lane.lane_name))
            reaped.to_include
            infos
          × (total_bytes (bytes_of infos) ≤ m)
          × (gas_of infos ≤ g)
    unfolding default_prepare
    reaped_sums lane w reaped p d reaps (valid, max, max_gas) =
        let core = core_of lane (w.pools lane.lane_name) in
        let limit = get_lane_limits env.ops p lane.cfg.max_block_space in
        let (b, bytes, b_le, gas_le) =
          get_lane_limits_bounds env.ops laws p lane.cfg.max_block_space m d.share valid max
            (omega arith) d.share_units d.share_le in
        let (infos, described, bytes_le, gas_of_le) =
          default_prepare_lane_handler_sums env core p limit b bytes (omega arith) (omega arith)
            w.ctx in
        let run : default_prepare env core w.ctx p limit ≡ finished reaped =
          ap (λ h. h core w.ctx p limit) (sym d.handler) ∙ reaps in
        (
          infos,
          subst (λ l. AreInfos env core l infos) (ap included run) described,
          omega arith,
          omega arith,
        )

    update-IsValidFor :
        (lane : BaseLane Ctx LegacyDec M) (infos : List TxWithInfo) (p p' : Proposal)
        → update_proposal env.ops (info_of lane) infos p ≡ ok p'
        → IsSafe p infos
        → IsValidFor m g p
        → IsValidFor m g p'
    unfolding update_proposal
    update-IsValidFor lane [] p p' h safe valid = subst (IsValidFor m g) (ok-injective p p' h) valid
    update-IsValidFor lane (i ∷ infos) p p' h safe (valid, max, max_gas) =
        let (valid', appended) =
          update_proposal-IsValid env.ops (info_of lane) (i ∷ infos) p p' valid safe (λ e. cc) h in
        (valid', appended.max_block_size ∙ max, appended.max_gas_limit ∙ max_gas)

    pub keep-IsValidFor :
        (lane : BaseLane Ctx LegacyDec M) (w : World Ctx M) (reaped : Reaped Ctx) (pool : M)
        (p p' : Proposal)
        → IsDefault lane
        → Reaps env lane w p reaped
        → add_to_proposal env lane pool reaped.to_include p ≡ ok p'
        → IsValidFor m g p
        → IsValidFor m g p'
    keep-IsValidFor lane w reaped pool p p' d reaps h (valid, max, max_gas) =
        let (infos, described, bytes_le, gas_le) =
          reaped_sums lane w reaped p d reaps (valid, max, max_gas) in
        let core = core_of lane (w.pools lane.lane_name) in
        let (infos', known, updated) = add_to_proposal-eq-ok env lane pool reaped.to_include p h in
        let same : infos' ≡ infos = ok-injective infos' infos (
          sym known
          ∙ get_tx_infos_pool env lane pool (w.pools lane.lane_name) reaped.to_include
          ∙ AreInfos-get_tx_infos env core reaped.to_include infos described) in
        let safe : IsSafe p infos = record {
          sizes = AreInfos-IsSized env core reaped.to_include infos described;
          bytes_fit = ground (arith, valid.sized, valid.bytes_within, max);
          gas_fits = ground (arith, valid.gas_within);
        } in
        update-IsValidFor lane infos p p'
          (subst (λ l. update_proposal env.ops (info_of lane) l p ≡ ok p') same updated) safe
          (valid, max, max_gas)

    -- From a valid proposal of a block of at most `m` bytes and `g` gas, below 2 ^ 62 and 2 ^ 63,
    -- the chain of a registry with at least one lane, whose lanes have the default handler and a
    -- share between 0 and 1, returns a valid proposal of the same limits: its block size is the
    -- number of its bytes, the counts of the lanes sum to the number of its transactions, and bytes
    -- and gas are within the limits.
    pub chain_prepare_lanes-IsValid :
        (chain : List (Lane Ctx LegacyDec M)) (w : World Ctx M) (p : Proposal)
        → chain ≢ []
        → AllLanes IsDefault chain
        → IsValidFor m g p
        → (q : Proposal) × ((chain_prepare_lanes env chain w p).outcome ≡ finished q)
          × IsValidFor m g q
    unfolding chain_prepare_lanes
    chain_prepare_lanes-IsValid chain w p nonempty defaults valid =
        run_prepare_inv env IsDefault (IsValidFor m g) keep-IsValidFor (terminated chain) w p
          (terminated-IsTerminated chain nonempty) (AllLanes-terminated IsDefault chain defaults)
          valid

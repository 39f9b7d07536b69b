-- ===== src/Abci/Prepare.antt =====
-- abci: what `ChainPrepareLanes` returns.
use mathlib.Core.List.{append_assoc, append-nil}
use block_sdk.Prelude.{
  ◌≤◌, ◌≡◌, ◌≢◌, refl, sym, ap, ◌∙◌, subst, List, [], ◌∷◌, ◌++◌, ◌≤ℤ◌, ok, >>=-eq-ok, map_err,
  map_err-eq-ok, arith,
}
use block_sdk.Proposals.{Bytes, Proposal, TxWithInfo}
use block_sdk.Proposals.Update.{LaneInfo, update_proposal, write_update}
use block_sdk.Proposals.Effect.{update_proposal-Accepts}
use block_sdk.Proposals.Bounds.{update_proposal_bounds}
use block_sdk.Sdk.{Tx}
use block_sdk.Base.{Env, get_tx_info, get_tx_infos}
use block_sdk.Base.Lane.{
  lane_failed, update_failed, finished, BaseLane, Lane, base, terminator, World, core_of, info_of,
  add_to_proposal,
}
use block_sdk.Abci.{terminated, chain_prepare_lanes}
use block_sdk.Abci.Chain.{IsTerminated, AllLanes}
use block_sdk.Abci.Induction.{run_prepare_inv}

module _ {Ctx LegacyDec M : Type 0} where
  pub terminated-IsTerminated :
      (chain : List (Lane Ctx LegacyDec M)) → chain ≢ [] → IsTerminated (terminated chain)
  unfolding terminated
  terminated-IsTerminated [] h = absurd (h refl)
  terminated-IsTerminated (terminator ∷ []) h = tt
  terminated-IsTerminated (base lane ∷ []) h = tt
  terminated-IsTerminated (terminator ∷ l ∷ lanes) h = tt
  terminated-IsTerminated (base lane ∷ l ∷ lanes) h = terminated-IsTerminated (l ∷ lanes) (λ e. cc)

  pub AllLanes-terminated :
      (Good : BaseLane Ctx LegacyDec M → Type 0) (chain : List (Lane Ctx LegacyDec M))
      → AllLanes Good chain
      → AllLanes Good (terminated chain)
  unfolding terminated
  AllLanes-terminated Good [] h = tt
  AllLanes-terminated Good (terminator ∷ []) h = tt
  AllLanes-terminated Good (base lane ∷ []) h = h
  AllLanes-terminated Good (terminator ∷ l ∷ lanes) h = AllLanes-terminated Good (l ∷ lanes) h
  AllLanes-terminated Good (base lane ∷ l ∷ lanes) h =
      (h.0, AllLanes-terminated Good (l ∷ lanes) h.1)

  pub AllLanes-Unit : (chain : List (Lane Ctx LegacyDec M)) → AllLanes (λ lane. Unit {0}) chain
  AllLanes-Unit [] = tt
  AllLanes-Unit (terminator ∷ lanes) = AllLanes-Unit lanes
  AllLanes-Unit (base lane ∷ lanes) = (tt, AllLanes-Unit lanes)

module _ {Ctx LegacyDec M : Type 0} (env : Env Ctx LegacyDec M) where
  pub add_to_proposal-eq-ok :
      (lane : BaseLane Ctx LegacyDec M) (pool : M) (txs : List Tx) (p : Proposal) {p' : Proposal}
      → add_to_proposal env lane pool txs p ≡ ok p'
      → (infos : List TxWithInfo) × (get_tx_infos env (core_of lane pool) txs ≡ ok infos)
        × (update_proposal env.ops (info_of lane) infos p ≡ ok p')
  unfolding add_to_proposal
  add_to_proposal-eq-ok lane pool txs p h =
      let (infos, known, h₁) =
        >>=-eq-ok (map_err lane_failed (get_tx_infos env (core_of lane pool) txs)) _ h in
      (
        infos,
        map_err-eq-ok lane_failed (get_tx_infos env (core_of lane pool) txs) known,
        map_err-eq-ok update_failed (update_proposal env.ops (info_of lane) infos p) h₁,
      )

  pub get_tx_infos_pool :
      (lane : BaseLane Ctx LegacyDec M) (a b : M) (txs : List Tx)
      → get_tx_infos env (core_of lane a) txs ≡ get_tx_infos env (core_of lane b) txs
  unfolding get_tx_infos get_tx_info
  get_tx_infos_pool lane a b [] = refl
  get_tx_infos_pool lane a b (tx ∷ txs) = rw (get_tx_infos_pool lane a b txs)

  -- The counters are within the limits of the block, which are those of the start, and the
  -- transactions of the start come first.
  pub record Extends (p q : Proposal) : Type 0 where
    pub bytes_within : q.info.block_size ≤ℤ p.info.max_block_size
    pub gas_within : q.info.gas_limit ≤ p.info.max_gas_limit
    pub max_bytes : q.info.max_block_size ≡ p.info.max_block_size
    pub max_gas : q.info.max_gas_limit ≡ p.info.max_gas_limit
    pub prefix : (txs : List Bytes) × (q.txs ≡ p.txs ++ txs)

  update_proposal_keeps :
      (lane : LaneInfo LegacyDec) (infos : List TxWithInfo) (p p' : Proposal)
      → update_proposal env.ops lane infos p ≡ ok p'
      → (p'.info.max_block_size ≡ p.info.max_block_size)
        × (p'.info.max_gas_limit ≡ p.info.max_gas_limit)
        × ((txs : List Bytes) × (p'.txs ≡ p.txs ++ txs))
  unfolding update_proposal write_update
  update_proposal_keeps lane [] p p' h = (
    ground arith,
    ground arith,
    (
      [],
      let e : p ≡ p' = ground arith in
          ap (λ (q : Proposal). q.txs) (sym e) ∙ sym (append-nil p.txs),
    ),
  )
  update_proposal_keeps lane (tx ∷ txs) p p' h =
      let (_, e) = update_proposal-Accepts env.ops lane tx txs p h in
      (ground arith, ground arith, (_, ap (λ (q : Proposal). q.txs) e))

  update_proposal-Extends :
      (lane : LaneInfo LegacyDec) (infos : List TxWithInfo) (start p p' : Proposal)
      → update_proposal env.ops lane infos p ≡ ok p'
      → Extends start p
      → Extends start p'
  update_proposal-Extends lane infos start p p' h x =
      let (bytes, gas) =
        update_proposal_bounds env.ops lane infos p p'
          (subst (λ m. p.info.block_size ≤ℤ m) (sym x.max_bytes) x.bytes_within)
          (subst (λ m. p.info.gas_limit ≤ m) (sym x.max_gas) x.gas_within) h in
      let (same_bytes, same_gas, (more, appended)) = update_proposal_keeps lane infos p p' h in
      let (txs, prefix) = x.prefix in
      record {
        bytes_within = subst (λ m. p'.info.block_size ≤ℤ m) x.max_bytes bytes;
        gas_within = subst (λ m. p'.info.gas_limit ≤ m) x.max_gas gas;
        max_bytes = same_bytes ∙ x.max_bytes;
        max_gas = same_gas ∙ x.max_gas;
        prefix =
            (txs ++ more, appended ∙ ap (λ l. l ++ more) prefix ∙ append_assoc start.txs txs more);
      }

  -- From a proposal within its limits, the chain of a registry with at least one lane always
  -- returns a proposal, whatever its lanes do: if their handlers return errors, panic or select
  -- transactions that do not fit, too. The counters of the result are within the limits of the
  -- block, the limits are as before, and its transactions extend those of the given proposal.
  pub chain_prepare_lanes-Extends :
      (chain : List (Lane Ctx LegacyDec M)) (w : World Ctx M) (p : Proposal)
      → chain ≢ []
      → p.info.block_size ≤ℤ p.info.max_block_size
      → p.info.gas_limit ≤ p.info.max_gas_limit
      → (q : Proposal) × ((chain_prepare_lanes env chain w p).outcome ≡ finished q) × Extends p q
  unfolding chain_prepare_lanes
  chain_prepare_lanes-Extends chain w p nonempty bytes gas =
      run_prepare_inv env (λ lane. Unit) (Extends p)
        (λ lane v reaped pool q q' _ _ h x.
          let (infos, _, updated) = add_to_proposal-eq-ok lane pool reaped.to_include q h in
          update_proposal-Extends (info_of lane) infos p q q' updated x)
        (terminated chain) w p (terminated-IsTerminated chain nonempty)
        (AllLanes-terminated (λ lane. Unit) chain (AllLanes-Unit chain))
        (record {
          bytes_within = bytes;
          gas_within = gas;
          max_bytes = refl;
          max_gas = refl;
          prefix = ([], sym (append-nil p.txs));
        })

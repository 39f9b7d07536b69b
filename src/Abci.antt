-- ===== src/Abci.antt =====
-- abci/utils.go: the chains of lanes; abci/abci.go: the ABCI++ handlers; `GetDecodedTxs` of
-- block/utils/utils.go.
pub mod Chain
pub mod Coherent
pub mod Contract
pub mod Default
pub mod Handlers
pub mod Induction
pub mod Prepare
pub mod Process
pub mod Replay
use block_sdk.Prelude.{
  ℕ, suc, String, Bool, true, false, List, [], ◌∷◌, ◌++◌, ℤ, pos, leb, leb_ℤ, length, Result, ok,
  err, ◌>>=◌, if◌then◌else◌,
}
use block_sdk.Proposals.{
  Bytes, Proposal, BlockParams, get_block_limits, new_proposal, new_proposal_with_context,
}
use block_sdk.Sdk.{Tx}
use block_sdk.Base.{Env}
use block_sdk.Base.Lane.{
  Failure, unexpected_txs, nil_handler, Outcome, finished, failed, panicked, Lane, base, terminator,
  World, Prepared, ProcessLanesHandler, PrepareLanesHandler, maps_of, with_maps, prepare_lane,
  process_lane,
}

module _ {Ctx LegacyDec M : Type 0} where
  -- `if chain[len(chain)-1] != terminator { chain = append(chain, terminator) }`
  unfoldable pub terminated : List (Lane Ctx LegacyDec M) → List (Lane Ctx LegacyDec M)
  terminated [] = []
  terminated (terminator ∷ []) = terminator ∷ []
  terminated (base lane ∷ []) = base lane ∷ terminator ∷ []
  terminated (lane ∷ next ∷ lanes) = lane ∷ terminated (next ∷ lanes)

module _ {Ctx LegacyDec M : Type 0} (env : Env Ctx LegacyDec M) where
  -- A lane that failed or panicked is skipped: the next one runs on the context and the copy of the
  -- proposal from before the call, whose maps the call may have written to.
  unfoldable pub skip_lane :
      ℕ → PrepareLanesHandler Ctx M → World Ctx M → Proposal → Prepared Ctx M → Prepared Ctx M
  skip_lane remaining next world proposal r =
      let proposal' = with_maps proposal r.maps in
      let world' : World Ctx M = record { ctx = world.ctx; pools = r.world.pools } in
      let skipped = next world' proposal' in
      if leb remaining 1
      then record { outcome = finished proposal'; maps = r.maps; world = world' }
      else skipped

  -- The deferred function of `ChainPrepareLanes`, by the outcome of the lane: on success the cached
  -- context is written.
  unfoldable pub recover_by :
      Outcome Proposal
      → ℕ
      → PrepareLanesHandler Ctx M
      → World Ctx M
      → Proposal
      → Prepared Ctx M
      → Prepared Ctx M
  recover_by (finished q) remaining next world proposal r = r
  recover_by (failed e) remaining next world proposal r = skip_lane remaining next world proposal r
  recover_by panicked remaining next world proposal r = skip_lane remaining next world proposal r

  unfoldable pub recover_lane :
      ℕ → PrepareLanesHandler Ctx M → World Ctx M → Proposal → Prepared Ctx M → Prepared Ctx M
  unfolding recover_by
  recover_lane remaining next world proposal r =
      recover_by r.outcome remaining next world proposal r

  -- `ChainPrepareLanes` on a chain that ends with the terminator; a nil handler panics when called.
  unfoldable pub run_prepare : List (Lane Ctx LegacyDec M) → PrepareLanesHandler Ctx M
  run_prepare [] world proposal = record {
    outcome = panicked;
    maps = maps_of proposal;
    world = world;
  }
  run_prepare (terminator ∷ lanes) world proposal = record {
    outcome = finished proposal;
    maps = maps_of proposal;
    world = world;
  }
  run_prepare (base lane ∷ lanes) world proposal =
      recover_lane (length lanes) (run_prepare lanes) world proposal
        (prepare_lane env lane (run_prepare lanes) world proposal)

  unfoldable pub chain_prepare_lanes : List (Lane Ctx LegacyDec M) → PrepareLanesHandler Ctx M
  chain_prepare_lanes chain = run_prepare (terminated chain)

  -- `ChainProcessLanes` on a chain that ends with the terminator
  unfoldable pub run_process : List (Lane Ctx LegacyDec M) → (String → M) → ProcessLanesHandler Ctx
  run_process [] pools ctx proposal txs = panicked
  run_process (terminator ∷ lanes) pools ctx proposal [] = finished proposal
  run_process (terminator ∷ lanes) pools ctx proposal (tx ∷ txs) = failed unexpected_txs
  run_process (base lane ∷ lanes) pools ctx proposal txs =
      process_lane env lane (pools lane.lane_name) (run_process lanes pools) ctx proposal txs

  unfoldable pub chain_process_lanes :
      List (Lane Ctx LegacyDec M) → (String → M) → ProcessLanesHandler Ctx
  chain_process_lanes chain = run_process (terminated chain)

  -- `PrepareProposalHandler`: the response's transactions and whether an error came back, and the
  -- state that is left. The limits come from the consensus parameters of the context.
  unfoldable pub prepare_proposal_handler :
      List (Lane Ctx LegacyDec M)
      → (Ctx → BlockParams)
      → ℤ
      → ℤ
      → List Bytes
      → World Ctx M
      → List Bytes × Bool × World Ctx M
  prepare_proposal_handler registry params height max_tx_bytes req_txs world =
      let proposal = new_proposal max_tx_bytes (get_block_limits (params world.ctx)).1 in
      let r = chain_prepare_lanes registry world proposal in
      if leb_ℤ height (pos 1) then (req_txs, false, world) else elim r.outcome [
        | finished p ↦ (p.txs, false, r.world)
        | failed e ↦ ([], true, r.world)
        | panicked ↦ ([], true, r.world)
      ]

  -- `GetDecodedTxs`
  unfoldable pub get_decoded_txs : (Bytes → Result String Tx) → List Bytes → Result String (List Tx)
  get_decoded_txs decoder [] = ok []
  get_decoded_txs decoder (bz ∷ bzs) = do
    tx ← decoder bz
    txs ← get_decoded_txs decoder bzs
    ok (tx ∷ txs)

  -- `ProcessProposalHandler`: whether the proposal is accepted. Without the custom logic the SDK's
  -- handler accepts every proposal.
  unfoldable pub process_proposal_handler :
      Bool
      → List (Lane Ctx LegacyDec M)
      → (Ctx → BlockParams)
      → (Bytes → Result String Tx)
      → ℤ
      → List Bytes
      → World Ctx M
      → Bool
  process_proposal_handler false registry params decoder height req_txs world = true
  process_proposal_handler true registry params decoder height req_txs world =
      if leb_ℤ height (pos 1) then true else elim (get_decoded_txs decoder req_txs) [
        | err e ↦ false
        | ok txs ↦
            elim (chain_process_lanes registry world.pools world.ctx
              (new_proposal_with_context (params world.ctx)) txs) [
                | finished p ↦ true
                | failed e ↦ false
                | panicked ↦ false
              ]
      ]

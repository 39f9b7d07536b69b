-- ===== src/Abci/Replay.antt =====
-- abci/utils.go: a proposal that `ChainPrepareLanes` builds passes `ChainProcessLanes`.
use block_sdk.Prelude.{◌≡◌, ◌≢◌, refl, sym, ap, ◌∙◌, String, List, [], ◌∷◌, Result}
use block_sdk.Proposals.{Bytes, Proposal}
use block_sdk.Sdk.{Tx}
use block_sdk.Base.{Env}
use block_sdk.Base.Lane.{finished, BaseLane, Lane, base, terminator, World, add_to_proposal}
use block_sdk.Abci.{terminated, chain_prepare_lanes, chain_process_lanes}
use block_sdk.Abci.Chain.{AllLanes}
use block_sdk.Abci.Coherent.{IsCoherent, AreApart, AreApart-terminated, run_prepare-Replays}
use block_sdk.Abci.Prepare.{
  terminated-IsTerminated, AllLanes-terminated, AllLanes-Unit, get_tx_infos_pool,
}
use block_sdk.Abci.Process.{IsSplitting, Grows, chain_process_lanes-Grows}

module _ {Ctx LegacyDec M : Type 0} (env : Env Ctx LegacyDec M)
    (Owns : BaseLane Ctx LegacyDec M → Tx → Type 0) (encode : Tx → Result String Bytes) where
  add_to_proposal_pool :
      (lane : BaseLane Ctx LegacyDec M) (pool other : M) (txs : List Tx) (p : Proposal)
      → add_to_proposal env lane other txs p ≡ add_to_proposal env lane pool txs p
  unfolding add_to_proposal
  add_to_proposal_pool lane pool other txs p = rw (get_tx_infos_pool env lane other pool txs)

  pub AllLanes-IsSplitting :
      (chain : List (Lane Ctx LegacyDec M))
      → AllLanes (IsCoherent env Owns encode) chain
      → AllLanes (IsSplitting env encode) chain
  AllLanes-IsSplitting [] h = tt
  AllLanes-IsSplitting (terminator ∷ lanes) h = AllLanes-IsSplitting lanes h
  AllLanes-IsSplitting (base lane ∷ lanes) h = (h.0.splitting, AllLanes-IsSplitting lanes h.1)

  -- What the chain builds from `p` and its verification from the same proposal have in common.
  pub record IsReplayed (chain : List (Lane Ctx LegacyDec M)) (w : World Ctx M) (p : Proposal)
      : Type 0 where
    pub built : Proposal
    pub finishes : (chain_prepare_lanes env chain w p).outcome ≡ finished built
    pub txs : List Tx
    pub contents : Grows env encode p txs built
    pub accepted :
        (pools : String → M) → chain_process_lanes env chain pools w.ctx p txs ≡ finished built

  -- For a registry with at least one lane, whose lanes keep the contract of `IsCoherent` and own
  -- transactions that do not match an earlier lane, `ChainPrepareLanes` returns a proposal, also
  -- where lanes fail or panic. It is the given one with the encodings of some transactions appended,
  -- and `ChainProcessLanes` accepts these transactions from the same context and proposal, whatever
  -- the mempools of the verifier hold, and ends with the very same proposal.
  pub chain_process_lanes-chain_prepare_lanes :
      (chain : List (Lane Ctx LegacyDec M)) (w : World Ctx M) (p : Proposal)
      → chain ≢ []
      → AllLanes (IsCoherent env Owns encode) chain
      → AreApart env Owns encode chain
      → IsReplayed chain w p
  unfolding chain_prepare_lanes chain_process_lanes
  chain_process_lanes-chain_prepare_lanes chain w p nonempty coherent apart =
      let r =
        run_prepare-Replays env Owns encode (λ lane. Unit) ◌≡◌
          (λ lane v reaped pool a a' b _ same _ added. (
            a',
            λ other.
                add_to_proposal_pool lane pool other reaped.to_include b
                ∙ ap (add_to_proposal env lane pool reaped.to_include) (sym same)
                ∙ added,
            refl,
          ))
          (terminated chain) w p p (terminated-IsTerminated chain nonempty)
          (AllLanes-terminated (IsCoherent env Owns encode) chain coherent)
          (AllLanes-terminated (λ lane. Unit) chain (AllLanes-Unit chain))
          (AreApart-terminated env Owns encode chain apart) refl in
      let accepted = λ (pools : String → M). r.accepted pools ∙ ap finished (sym r.has_room) in
      record {
        built = r.built;
        finishes = r.finishes;
        txs = r.txs;
        contents =
            chain_process_lanes-Grows env encode chain w.pools w.ctx p r.built r.txs
              (AllLanes-IsSplitting chain coherent) (accepted w.pools);
        accepted = accepted;
      }

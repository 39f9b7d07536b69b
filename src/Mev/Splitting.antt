-- ===== src/Mev/Splitting.antt =====
-- lanes/mev: a lane with the auction handler in the chain of `ProcessProposal`.
use block_sdk.Prelude.{◌≡◌, ◌∙◌, refl, ap, subst, String, List, ◌++◌, Result, ok, err, arith}
use block_sdk.Proposals.{Bytes}
use block_sdk.Sdk.{Tx}
use block_sdk.Base.{Env, LaneCore, LaneError}
use block_sdk.Base.Lane.{finished, BaseLane, Split, split_of}
use block_sdk.Abci.Process.{IsSplitting}
use block_sdk.Mev.{Factory}
use block_sdk.Mev.Proposal.{process_auction, mev_process_lane_handler}
use block_sdk.Mev.Accepted.{process_auction-Taken}

module _ {Ctx LegacyDec M : Type 0} (env : Env Ctx LegacyDec M) (factory : Factory) where
  split_of_splits :
      (core : LaneCore Ctx LegacyDec M) (ctx : Ctx) (txs : List Tx) (s : Split Ctx)
      (x : Result LaneError (List Tx × List Tx × Ctx))
      → process_auction env factory core ctx txs ≡ x
      → split_of env x ≡ finished s
      → txs ≡ s.from_lane ++ s.remaining
  unfolding split_of
  split_of_splits core ctx txs s (err e) h done = absurd (ground arith)
  split_of_splits core ctx txs s (ok (own, rest, c')) h done =
      let (e, _) = process_auction-Taken env factory core ctx txs own rest c' h in
      let same : record { from_lane = own; remaining = rest; ctx = c' } ≡ s = ground arith in
      e ∙ ap (λ (t : Split Ctx). t.from_lane ++ t.remaining) same

  -- A lane with the handler of the auction lane splits what it is given in two.
  pub mev_process-IsSplitting :
      (encode : Tx → Result String Bytes) (lane : BaseLane Ctx LegacyDec M)
      → lane.cfg.tx_encoder ≡ encode
      → lane.process_lane_handler ≡ mev_process_lane_handler env factory
      → IsSplitting env encode lane
  unfolding mev_process_lane_handler
  mev_process-IsSplitting encode lane encoder handler = record {
    encoder = encoder;
    splits = λ core ctx txs s h.
        split_of_splits core ctx txs s _ refl (subst (λ f. f core ctx txs ≡ finished s) handler h);
  }

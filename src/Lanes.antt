-- ===== src/Lanes.antt =====
-- lanes: the constructors of the default lane (lanes/base/lane.go), of the free lane with its match
-- handler (lanes/free/lane.go) and of the auction lane (lanes/mev/lane.go).
pub mod Complete
pub mod Terminator
use block_sdk.Prelude.{
  Bool, true, false, Option, none, some, List, [], ◌∷◌, String, Result, ok, err, if◌then◌else◌,
}
use block_sdk.Proposals.{Bytes, Proposal, LaneLimits}
use block_sdk.Sdk.{
  Msg, auction_bid, delegate, begin_redelegate, cancel_unbonding_delegation, other_msg, Tx,
}
use block_sdk.Base.{Env, LaneConfig, LaneCore, MatchHandler}
use block_sdk.Base.Lane.{Outcome, Reaped, Split, BaseLane}
use block_sdk.Base.Setup.{
  Extractor, SetupConfig, TxPriority, IndexMaker, LaneSetup, Built, built, refused, build_panic,
  must, with_match_handler, with_prepare_lane_handler, with_process_lane_handler, with_options,
  with_mempool_configs, new_base_lane,
}
use block_sdk.Mev.{Factory}
use block_sdk.Mev.Proposal.{mev_prepare_lane_handler, mev_process_lane_handler}
use block_sdk.Mev.Order.{CoinTexts, get_tx_priority, compare_priorities}

-- The `switch` of the free lane's `DefaultMatchHandler`.
unfoldable pub is_staking_msg : Msg → Bool
is_staking_msg delegate = true
is_staking_msg begin_redelegate = true
is_staking_msg cancel_unbonding_delegation = true
is_staking_msg (auction_bid bid) = false
is_staking_msg (other_msg name) = false

unfoldable pub has_staking_msg : List Msg → Bool
has_staking_msg [] = false
has_staking_msg (msg ∷ msgs) = if is_staking_msg msg then true else has_staking_msg msgs

-- `DefaultMatchHandler` of the free lane
unfoldable pub free_match_handler : {Ctx : Type 0} → MatchHandler Ctx
free_match_handler ctx tx = has_staking_msg tx.msgs

-- The lane that the other parts of the program see; `none` where a field that they use is nil.
module _ {Ctx LegacyDec M : Type 0} where
  assemble :
      SetupConfig Ctx LegacyDec
      → String
      → Option (Tx → Result String Bytes)
      → Option (Bytes → Result String Tx)
      → Option Extractor
      → Option (MatchHandler Ctx)
      → Option (LaneCore Ctx LegacyDec M → Ctx → Proposal → LaneLimits → Outcome (Reaped Ctx))
      → Option (LaneCore Ctx LegacyDec M → Ctx → List Tx → Outcome (Split Ctx))
      → Option (BaseLane Ctx LegacyDec M)
  assemble cfg name (some encoder) (some decoder) (some extract) (some match) (some prepare)
        (some process) =
      some (record {
        cfg = record {
          tx_encoder = encoder;
          tx_decoder = decoder;
          ante_handler = cfg.ante_handler;
          get_signers = extract;
          max_block_space = cfg.max_block_space;
        };
        lane_name = name;
        match_handler = match;
        prepare_lane_handler = prepare;
        process_lane_handler = process;
      })
  assemble _ _ _ _ _ _ _ _ = none

  unfoldable pub lane_of : LaneSetup Ctx LegacyDec M → Option (BaseLane Ctx LegacyDec M)
  unfolding assemble
  lane_of l =
      assemble l.cfg l.lane_name l.cfg.tx_encoder l.cfg.tx_decoder l.cfg.signer_extractor
        l.match_handler l.prepare_lane_handler l.process_lane_handler

-- `TxPriority` of the auction lane
unfoldable pub bid_priority :
    {Ctx Coins : Type 0} → CoinTexts Coins → Factory → TxPriority Ctx String
bid_priority texts factory = record {
  get_tx_priority = get_tx_priority texts factory;
  compare = compare_priorities texts;
  min_value = "";
}

module _ {Ctx LegacyDec M : Type 0} (env : Env Ctx LegacyDec M) (new_index : IndexMaker Ctx M) where
  -- `NewDefaultLane`
  unfoldable pub new_default_lane :
      SetupConfig Ctx LegacyDec → Option (MatchHandler Ctx) → Built (LaneSetup Ctx LegacyDec M)
  new_default_lane cfg match_handler =
      must (new_base_lane env new_index cfg "default" (with_match_handler match_handler ∷ []))

  -- `NewFreeLane`
  unfoldable pub new_free_lane :
      (C : Type 0)
      → SetupConfig Ctx LegacyDec
      → TxPriority Ctx C
      → Option (MatchHandler Ctx)
      → Built (LaneSetup Ctx LegacyDec M)
  new_free_lane C cfg priority match_fn = must (
      new_base_lane env new_index cfg "free"
        (with_match_handler match_fn ∷ with_mempool_configs new_index C cfg priority ∷ []))

  -- `baseLane.WithOptions`, with the handlers of the auction lane
  unfoldable pub with_auction_handlers :
      Factory → Built (LaneSetup Ctx LegacyDec M) → Built (LaneSetup Ctx LegacyDec M)
  with_auction_handlers factory (refused e) = refused e
  with_auction_handlers factory build_panic = build_panic
  with_auction_handlers factory (built l) =
      elim (with_options
        (with_prepare_lane_handler (some (mev_prepare_lane_handler env factory))
          ∷ with_process_lane_handler (some (mev_process_lane_handler env factory))
          ∷ [])
        l) [ none ↦ build_panic | some l' ↦ built l' ]

  -- `NewMEVLane`
  unfoldable pub new_mev_lane :
      {Coins : Type 0}
      → CoinTexts Coins
      → SetupConfig Ctx LegacyDec
      → Factory
      → Option (MatchHandler Ctx)
      → Built (LaneSetup Ctx LegacyDec M)
  new_mev_lane texts cfg factory match_handler = with_auction_handlers factory (
      must (
        new_base_lane env new_index cfg "mev" (
          with_match_handler match_handler
          ∷ with_mempool_configs new_index String cfg (bid_priority texts factory)
          ∷ [])))

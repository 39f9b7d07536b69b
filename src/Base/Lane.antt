-- ===== src/Base/Lane.antt =====
-- block/base/abci.go: `PrepareLane` and `ProcessLane`, with the handlers of types.go; the
-- terminator of lanes/terminator/lane.go; `RemoveTxsFromLane` of block/utils/utils.go.
use block_sdk.Prelude.{
  ℕ, String, List, [], ◌∷◌, str_eq, Result, ok, err, ◌>>=◌, map_err, if◌then◌else◌,
}
use block_sdk.Proposals.{Proposal, LaneLimits, get_lane_limits}
use block_sdk.Proposals.Update.{UpdateError, LaneInfo, update_proposal}
use block_sdk.Sdk.{Tx}
use block_sdk.Base.{Env, LaneConfig, LaneCore, LaneError, MatchHandler, get_tx_infos}
use block_sdk.Base.Select.{default_prepare_lane_handler}
use block_sdk.Base.Process.{default_process_lane_handler}

-- Why a lane gives up, and how a call ends that may panic.
pub data Failure : Type 0 where
  lane_failed : LaneError → Failure
  update_failed : UpdateError → Failure
  unexpected_txs nil_handler : Failure

pub data Outcome (A : Type 0) : Type 0 where
  finished : A → Outcome A
  failed : Failure → Outcome A
  panicked : Outcome A

-- The results of a `PrepareLaneHandler`: `txsToInclude`, `txsToRemove` and the context it leaves.
pub record Reaped (Ctx : Type 0) : Type 0 where
  pub to_include : List Tx
  pub to_remove : List Tx
  pub ctx : Ctx

-- The results of a `ProcessLaneHandler`: `txsFromLane`, `remainingTxs` and the context it leaves.
pub record Split (Ctx : Type 0) : Type 0 where
  pub from_lane : List Tx
  pub remaining : List Tx
  pub ctx : Ctx

-- `BaseLane`. The lane's mempool is part of the state below, under the name of the lane.
pub record BaseLane (Ctx LegacyDec M : Type 0) : Type 0 where
  pub cfg : LaneConfig Ctx LegacyDec
  pub lane_name : String
  pub match_handler : MatchHandler Ctx
  pub prepare_lane_handler :
      LaneCore Ctx LegacyDec M → Ctx → Proposal → LaneLimits → Outcome (Reaped Ctx)
  pub process_lane_handler : LaneCore Ctx LegacyDec M → Ctx → List Tx → Outcome (Split Ctx)

pub data Lane (Ctx LegacyDec M : Type 0) : Type 0 where
  base : BaseLane Ctx LegacyDec M → Lane Ctx LegacyDec M
  terminator : Lane Ctx LegacyDec M

-- The state that the lanes change: the context and the mempools.
pub record World (Ctx M : Type 0) : Type 0 where
  pub ctx : Ctx
  pub pools : String → M

-- The two maps of a proposal. Copies of a Go struct share them, so a caller sees what was written
-- to them also when the call fails.
pub record Maps : Type 0 where
  pub cache : List String
  pub txs_by_lane : List (String × ℕ)

abbrev pub maps_of : Proposal → Maps
maps_of p = record { cache = p.cache; txs_by_lane = p.info.txs_by_lane }

-- The caller's copy of a proposal, after a callee has left the maps in a state.
abbrev pub with_maps : Proposal → Maps → Proposal
with_maps p maps = record p {
  cache = maps.cache;
  info = record p.info { txs_by_lane = maps.txs_by_lane };
}

-- What a call leaves: its outcome, the shared maps and the state.
pub record Prepared (Ctx M : Type 0) : Type 0 where
  pub outcome : Outcome Proposal
  pub maps : Maps
  pub world : World Ctx M

abbrev pub PrepareLanesHandler : Type 0 → Type 0 → Type 0
PrepareLanesHandler Ctx M = World Ctx M → Proposal → Prepared Ctx M

abbrev pub ProcessLanesHandler : Type 0 → Type 0
ProcessLanesHandler Ctx = Ctx → Proposal → List Tx → Outcome Proposal

abbrev pub core_of :
    {Ctx LegacyDec M : Type 0} → BaseLane Ctx LegacyDec M → M → LaneCore Ctx LegacyDec M
core_of lane pool = record {
  cfg = lane.cfg;
  lane_name = lane.lane_name;
  mempool = pool;
  match_handler = lane.match_handler;
}

abbrev pub info_of : {Ctx LegacyDec M : Type 0} → BaseLane Ctx LegacyDec M → LaneInfo LegacyDec
info_of lane = record { name = lane.lane_name; max_block_space = lane.cfg.max_block_space }

abbrev pub set_pool : {M : Type 0} → (String → M) → String → M → String → M
set_pool pools name pool other = if str_eq name other then pool else pools other

module _ {Ctx LegacyDec M : Type 0} (env : Env Ctx LegacyDec M) where
  -- `RemoveTxsFromLane`: it stops at the first error, which the caller only logs.
  unfoldable pub remove_txs_from_lane : List Tx → M → M
  remove_txs_from_lane [] pool = pool
  remove_txs_from_lane (tx ∷ txs) pool = elim (env.pool.remove tx pool) [
    | err e ↦ pool
    | ok pool' ↦ remove_txs_from_lane txs pool'
  ]

  -- The handlers that `NewBaseLane` installs.
  unfoldable pub default_prepare :
      LaneCore Ctx LegacyDec M → Ctx → Proposal → LaneLimits → Outcome (Reaped Ctx)
  default_prepare core ctx proposal limit =
      let s = default_prepare_lane_handler env core ctx proposal limit in
      finished (record { to_include = s.to_include; to_remove = s.to_remove; ctx = s.ctx })

  unfoldable pub split_of : Result LaneError (List Tx × List Tx × Ctx) → Outcome (Split Ctx)
  split_of (err e) = failed (lane_failed e)
  split_of (ok (own, rest, ctx)) =
      finished (record { from_lane = own; remaining = rest; ctx = ctx })

  unfoldable pub default_process : LaneCore Ctx LegacyDec M → Ctx → List Tx → Outcome (Split Ctx)
  default_process core ctx txs = split_of (default_process_lane_handler env core ctx txs)

  -- The transactions of a lane, added to the proposal: `GetTxInfo` of each and `UpdateProposal`.
  unfoldable pub add_to_proposal :
      BaseLane Ctx LegacyDec M → M → List Tx → Proposal → Result Failure Proposal
  add_to_proposal lane pool txs proposal = do
    infos ← map_err lane_failed (get_tx_infos env (core_of lane pool) txs)
    map_err update_failed (update_proposal env.ops (info_of lane) infos proposal)

  -- the end of `PrepareLane`: `UpdateProposal` failed, or the next lane is called
  unfoldable pub hand_on :
      PrepareLanesHandler Ctx M → World Ctx M → Proposal → Result Failure Proposal → Prepared Ctx M
  hand_on next world proposal (err e) = record {
    outcome = failed e;
    maps = maps_of proposal;
    world = world;
  }
  hand_on next world proposal (ok proposal') = next world proposal'

  -- `PrepareLane` after the call of the handler
  unfoldable pub finish_prepare :
      BaseLane Ctx LegacyDec M
      → PrepareLanesHandler Ctx M
      → World Ctx M
      → Proposal
      → Outcome (Reaped Ctx)
      → Prepared Ctx M
  finish_prepare lane next world proposal panicked = record {
    outcome = panicked;
    maps = maps_of proposal;
    world = world;
  }
  finish_prepare lane next world proposal (failed e) = record {
    outcome = failed e;
    maps = maps_of proposal;
    world = world;
  }
  finish_prepare lane next world proposal (finished reaped) =
      let pool = remove_txs_from_lane reaped.to_remove (world.pools lane.lane_name) in
      let world' : World Ctx M = record {
        ctx = reaped.ctx;
        pools = set_pool world.pools lane.lane_name pool;
      } in
      hand_on next world' proposal (add_to_proposal lane pool reaped.to_include proposal)

  unfoldable pub prepare_lane :
      BaseLane Ctx LegacyDec M → PrepareLanesHandler Ctx M → World Ctx M → Proposal → Prepared Ctx M
  prepare_lane lane next world proposal =
      let limit = get_lane_limits env.ops proposal lane.cfg.max_block_space in
      let core = core_of lane (world.pools lane.lane_name) in
      finish_prepare lane next world proposal
        (lane.prepare_lane_handler core world.ctx proposal limit)

  -- the end of `ProcessLane`
  unfoldable pub pass_on :
      ProcessLanesHandler Ctx → Split Ctx → Result Failure Proposal → Outcome Proposal
  pass_on next split (err e) = failed e
  pass_on next split (ok proposal') = next split.ctx proposal' split.remaining

  -- `ProcessLane` after the call of the handler
  unfoldable pub finish_process :
      BaseLane Ctx LegacyDec M
      → M
      → ProcessLanesHandler Ctx
      → Proposal
      → Outcome (Split Ctx)
      → Outcome Proposal
  finish_process lane pool next proposal panicked = panicked
  finish_process lane pool next proposal (failed e) = failed e
  finish_process lane pool next proposal (finished split) =
      pass_on next split (add_to_proposal lane pool split.from_lane proposal)

  unfoldable pub process_lane :
      BaseLane Ctx LegacyDec M
      → M
      → ProcessLanesHandler Ctx
      → Ctx
      → Proposal
      → List Tx
      → Outcome Proposal
  process_lane lane pool next ctx proposal [] = next ctx proposal []
  process_lane lane pool next ctx proposal (tx ∷ txs) =
      finish_process lane pool next proposal
        (lane.process_lane_handler (core_of lane pool) ctx (tx ∷ txs))

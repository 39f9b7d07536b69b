-- ===== src/Tests/Lanes.antt =====
-- block/base and abci at concrete inputs: an application whose contexts count the ante checks and
-- whose mempools are lists.
use block_sdk.Prelude.{
  ℕ, suc, ◌/◌, ◌≤◌, ◌≡◌, ◌≢◌, ◌↔◌, refl, String, false, none, some, List, [], ◌∷◌, ◌++◌, ℤ, pos,
  Result, ok, err, arith, length, ◌==◌, if◌then◌else◌, add_int64, add_uint64, has_key, lookup,
  insert, str_eq,
}
use block_sdk.Decimal.{precision}
use block_sdk.Proposals.{
  Bytes, Proposal, LaneLimits, TxWithInfo, new_proposal, contains, get_lane_limits,
}
use block_sdk.Proposals.Update.{
  update_proposal, write_update, check_limits, aggregate, has_prepared,
}
use block_sdk.Proposals.Totals.{total_bytes, bytes_of, gas_of}
use block_sdk.Sdk.{Tx}
use block_sdk.Base.{
  get_tx_info, get_tx_infos, verify_tx, verify_no_matches, Env, LaneConfig, LaneMempool, LaneCore,
  default_match_handler,
}
use block_sdk.Base.Exact.{default_prepare_lane_handler_sums}
use block_sdk.Base.Select.{default_prepare_lane_handler}
use block_sdk.Base.Process.{in_order, check_order, process_txs, default_process_lane_handler}
use block_sdk.Base.Selection.{AreInfos, IsChosen, default_prepare_lane_handler-IsChosen}
use block_sdk.Base.Acceptance.{IsProcessed}
use block_sdk.Base.RoundTrip.{Precedes, Pairs, default_process_lane_handler_iff, process-prepare}
use block_sdk.Base.Lane.{
  finished, panicked, BaseLane, Lane, base, terminator, World, default_prepare, default_process,
  core_of, prepare_lane, finish_prepare, process_lane, finish_process, pass_on, add_to_proposal,
  split_of,
}
use block_sdk.Abci.{terminated, run_prepare, run_process, chain_prepare_lanes, chain_process_lanes}
use block_sdk.Abci.Chain.{IsFailure, prepared, skipped}
use block_sdk.Abci.Induction.{run_prepare_skip}
use block_sdk.Abci.Prepare.{Extends, chain_prepare_lanes-Extends}
use block_sdk.Abci.Default.{IsDefault, IsValidFor, chain_prepare_lanes-IsValid}
use block_sdk.Abci.Process.{
  IsSplitting, Grows, chain_process_lanes-Grows, default_process-IsSplitting,
}
use block_sdk.Tests.Decimals.{units_ops, units_laws}

abbrev name_of : Bytes → String
name_of bytes = if length bytes == 1 then "A" else "B"

abbrev pub pools : LaneMempool ℕ (List Tx)
pools = record {
  insert = λ ctx tx pool. ok (pool ++ tx ∷ []);
  remove = λ tx pool. ok pool;
  select = λ ctx pool. pool;
  count_tx = length;
  holds = λ pool tx. false;
  compare = λ pool ctx this other. ok (pos 0);
}

abbrev pub env : Env ℕ ℤ (List Tx)
env = record { hash = name_of; ops = units_ops; pool = pools }

abbrev encode : Tx → Result String Bytes
encode tx = ok tx.body

abbrev pub cfg : LaneConfig ℕ ℤ
cfg = record {
  tx_encoder = encode;
  tx_decoder = λ bytes. err "unused";
  ante_handler = some (λ ctx tx simulate. ok (suc ctx));
  get_signers = λ tx. ok [];
  max_block_space = pos (precision / 2);
}

abbrev pub tx_of : Bytes → ℕ → Tx
tx_of body gas = record {
  msgs = [];
  fee_gas = some gas;
  timeout = none;
  signatures = none;
  body = body;
}

abbrev pub tx_a : Tx
tx_a = tx_of (1 ∷ []) 10

abbrev pub tx_b : Tx
tx_b = tx_of (1 ∷ 2 ∷ []) 20

abbrev pub lane : BaseLane ℕ ℤ (List Tx)
lane = record {
  cfg = cfg;
  lane_name = "default";
  match_handler = λ ctx tx. length tx.body == 1;
  prepare_lane_handler = default_prepare env;
  process_lane_handler = default_process env;
}

abbrev broken : BaseLane ℕ ℤ (List Tx)
broken = record lane {
  lane_name = "broken";
  prepare_lane_handler = λ core ctx proposal limit. panicked;
}

abbrev world : World ℕ (List Tx)
world = record { ctx = 0; pools = λ name. tx_a ∷ tx_b ∷ [] }

abbrev pub core : LaneCore ℕ ℤ (List Tx)
core = core_of lane (tx_a ∷ tx_b ∷ [])

abbrev pub start : Proposal
start = new_proposal (pos 100) 1000

abbrev pub limit : LaneLimits
limit = record { max_tx_bytes = pos 50; max_gas_limit = 500 }

default_prepare_lane_handler-IsChosen_example :
    (infos : List TxWithInfo) × IsChosen env core start limit 0
      (default_prepare_lane_handler env core 0 start limit)
      infos
default_prepare_lane_handler-IsChosen_example =
    default_prepare_lane_handler-IsChosen env core 0 start limit (omega arith)

default_prepare_lane_handler_sums_example :
    (infos : List TxWithInfo) × AreInfos env core
      (default_prepare_lane_handler env core 0 start limit).to_include
      infos
    × (total_bytes (bytes_of infos) ≤ 50)
    × (gas_of infos ≤ 500)
default_prepare_lane_handler_sums_example =
    default_prepare_lane_handler_sums env core start limit 50 refl (omega arith) (omega arith) 0

default_process_lane_handler_iff_example :
    (default_process_lane_handler env core 0 (tx_a ∷ tx_b ∷ []) ≡ ok (tx_a ∷ [], tx_b ∷ [], 1)) ↔ (
      (tx_a ∷ tx_b ∷ [] ≡ tx_a ∷ [] ++ tx_b ∷ [])
      × IsProcessed env core none 0 (tx_a ∷ []) (tx_b ∷ []) 1)
default_process_lane_handler_iff_example =
    default_process_lane_handler_iff env core 0 (tx_a ∷ tx_b ∷ []) (tx_a ∷ []) (tx_b ∷ []) 1

all_equal : Pairs (Precedes env core) (tx_a ∷ tx_b ∷ [])
unfolding in_order
all_equal = ((λ c. refl, tt), (tt, tt))

selected_accepted :
    default_process_lane_handler env core 0
      ((default_prepare_lane_handler env core 0 start limit).to_include ++ tx_b ∷ [])
    ≡ ok (
      (default_prepare_lane_handler env core 0 start limit).to_include,
      tx_b ∷ [],
      (default_prepare_lane_handler env core 0 start limit).ctx,
    )
selected_accepted =
    process-prepare env core 0 start limit (tx_b ∷ []) (omega arith) all_equal (refl, tt)

-- the chain: a lane that panics before the default one
abbrev registry : List (Lane ℕ ℤ (List Tx))
registry = base broken ∷ base lane ∷ terminator ∷ []

broken_fails : IsFailure (prepared env broken (base lane ∷ terminator ∷ []) world start).outcome
unfolding prepare_lane finish_prepare
broken_fails = tt

run_prepare_skip_example :
    run_prepare env registry world start
    ≡ run_prepare env
        (base lane ∷ terminator ∷ [])
        (skipped env world (prepared env broken (base lane ∷ terminator ∷ []) world start))
        start
run_prepare_skip_example =
    run_prepare_skip env broken (base lane ∷ terminator ∷ []) world start tt broken_fails

registry_nonempty : registry ≢ []
registry_nonempty = λ e. cc

chain_prepare_lanes-Extends_example :
    (q : Proposal) × ((chain_prepare_lanes env registry world start).outcome ≡ finished q)
    × Extends env start q
unfolding new_proposal
chain_prepare_lanes-Extends_example =
    chain_prepare_lanes-Extends env registry world start registry_nonempty (omega arith)
      (omega arith)

lane-IsDefault : IsDefault env units_laws lane
lane-IsDefault = record {
  handler = refl;
  share = precision / 2;
  share_units = refl;
  share_le = omega arith;
}

start-IsValidFor : IsValidFor env units_laws 100 1000 start
unfolding new_proposal
start-IsValidFor = (
  record { sized = refl; counted = refl; bytes_within = omega arith; gas_within = omega arith },
  refl,
  refl,
)

abbrev default_registry : List (Lane ℕ ℤ (List Tx))
default_registry = base lane ∷ []

chain_prepare_lanes-IsValid_example :
    (q : Proposal) × ((chain_prepare_lanes env default_registry world start).outcome ≡ finished q)
    × IsValidFor env units_laws 100 1000 q
chain_prepare_lanes-IsValid_example =
    chain_prepare_lanes-IsValid env units_laws 100 1000 (omega arith) (omega arith) default_registry
      world start (λ e. cc) (lane-IsDefault, tt) start-IsValidFor

-- a lane with the default handler that takes every transaction
abbrev whole_lane : BaseLane ℕ ℤ (List Tx)
whole_lane = record lane { match_handler = default_match_handler }

abbrev whole_registry : List (Lane ℕ ℤ (List Tx))
whole_registry = base whole_lane ∷ []

whole_lane-IsSplitting : IsSplitting env encode whole_lane
whole_lane-IsSplitting = default_process-IsSplitting env encode whole_lane refl refl

abbrev processed : Proposal
processed = record start {
  txs = (1 ∷ []) ∷ [];
  cache = "A" ∷ [];
  info = record start.info {
    block_size = pos 1;
    gas_limit = 10;
    txs_by_lane = ("default", 1) ∷ [];
  };
}

whole_registry_accepts :
    chain_process_lanes env whole_registry world.pools 0 start (tx_a ∷ []) ≡ finished processed
unfolding terminated chain_process_lanes run_process process_lane finish_process pass_on
    add_to_proposal split_of default_process default_process_lane_handler process_txs check_order
    default_match_handler verify_tx verify_no_matches get_tx_info get_tx_infos new_proposal contains
    get_lane_limits update_proposal write_update check_limits aggregate has_prepared has_key lookup
    insert str_eq add_int64 add_uint64
whole_registry_accepts = refl

chain_process_lanes-Grows_example : Grows env encode start (tx_a ∷ []) processed
chain_process_lanes-Grows_example =
    chain_process_lanes-Grows env encode whole_registry world.pools 0 start processed (tx_a ∷ [])
      (whole_lane-IsSplitting, tt) whole_registry_accepts

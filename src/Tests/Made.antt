-- ===== src/Tests/Made.antt =====
-- lanes/base at a configuration with half of the block, and at others.
use block_sdk.Prelude.{ℕ, ◌+◌, ◌≡◌, refl, true, none, some, List, [], ◌∷◌, ℤ, pos, str_eq}
use block_sdk.Decimal.{precision}
use block_sdk.Sdk.{Tx, delegate, other_msg}
use block_sdk.Base.{MatchHandler, default_match_handler}
use block_sdk.Base.Setup.{
  SetupConfig, IndexMaker, LaneSetup, built, refused, build_panic, bad_block_space, is_set, must,
  with_match_handler, with_options, validate_config, validate_lane, start_lane, finish_lane,
  new_base_lane,
}
use block_sdk.Lanes.{is_staking_msg, has_staking_msg, free_match_handler, new_default_lane}
use block_sdk.Lanes.Complete.{IsComplete, IsDefaultLane, new_default_lane_iff}
use block_sdk.Tests.Decimals.{units_laws}
use block_sdk.Tests.Lanes.{env, cfg, tx_of}

abbrev config : SetupConfig ℕ ℤ
config = record {
  has_logger = true;
  tx_encoder = some cfg.tx_encoder;
  tx_decoder = some cfg.tx_decoder;
  ante_handler = cfg.ante_handler;
  signer_extractor = some cfg.get_signers;
  max_block_space = cfg.max_block_space;
  max_txs = pos 0;
}

abbrev new_index : IndexMaker ℕ (List Tx)
new_index C priority extractor max_tx = []

-- A share above 1 is refused, and a lane without a match handler panics.
setup_program : Unit {0}
unfolding must with_match_handler with_options validate_config validate_lane start_lane finish_lane
    new_base_lane new_default_lane str_eq
setup_program = tt

too_much :
    new_base_lane env new_index (record config { max_block_space = pos (precision + 1) }) "free" []
    ≡ refused bad_block_space
unfolding setup_program
too_much = refl

nil_handler : new_default_lane env new_index config none ≡ build_panic
unfolding setup_program
nil_handler = refl

-- The free lane takes a transaction with a message of staking anywhere in it.
staking :
    free_match_handler {Ctx = ℕ} 0 (record (tx_of [] 1) { msgs = other_msg "send" ∷ delegate ∷ [] })
    ≡ true
unfolding free_match_handler has_staking_msg is_staking_msg
staking = refl

new_default_lane_iff_example :
    ((l : LaneSetup ℕ ℤ (List Tx))
      → new_default_lane env new_index config (some default_match_handler) ≡ built l
      → IsComplete env units_laws config
        × IsDefaultLane env units_laws (some default_match_handler) l)
    × (IsComplete env units_laws config
        → is_set {A = MatchHandler ℕ} (some default_match_handler) ≡ true
        → (l : LaneSetup ℕ ℤ (List Tx)) × (new_default_lane env new_index config
              (some default_match_handler)
            ≡ built l))
new_default_lane_iff_example =
    new_default_lane_iff env units_laws new_index config (some default_match_handler)

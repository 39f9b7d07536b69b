-- ===== src/Base/Setup.antt =====
-- block/base: the construction of a lane: the configuration and its validation (config.go), the
-- options (options.go), the default priority (tx_priority.go), `NewMempool` (mempool.go), and
-- `NewBaseLane` and `ValidateBasic` (lane.go). Here every field that may be nil is an option.
use block_sdk.Prelude.{
  String, Bool, true, false, not, ◌||◌, Option, none, some, List, [], ◌∷◌, ℤ, pos, str_eq, Result,
  ok, err, ◌>>◌, guard,
}
use block_sdk.Proposals.{Bytes, Proposal, LaneLimits, SignerData}
use block_sdk.Sdk.{Tx}
use block_sdk.Base.{Env, LaneCore, MatchHandler, default_match_handler}
use block_sdk.Base.Mempool.{CompareError, compare_txs}
use block_sdk.Base.Lane.{Outcome, Reaped, Split, default_prepare, default_process}

abbrev pub Extractor : Type 0
Extractor = Tx → Result String (List SignerData)

-- `LaneConfig` before it is validated
pub record SetupConfig (Ctx LegacyDec : Type 0) : Type 0 where
  pub has_logger : Bool
  pub tx_encoder : Option (Tx → Result String Bytes)
  pub tx_decoder : Option (Bytes → Result String Tx)
  pub ante_handler : Option (Ctx → Tx → Bool → Result String Ctx)
  pub signer_extractor : Option Extractor
  pub max_block_space : LegacyDec
  pub max_txs : ℤ

-- `NewLaneConfig`: it leaves `MaxTxs` at 0, which is no cap.
unfoldable pub new_lane_config :
    {Ctx LegacyDec : Type 0}
    → Bool
    → Option (Tx → Result String Bytes)
    → Option (Bytes → Result String Tx)
    → Option (Ctx → Tx → Bool → Result String Ctx)
    → Option Extractor
    → LegacyDec
    → SetupConfig Ctx LegacyDec
new_lane_config has_logger tx_encoder tx_decoder ante_handler signer_extractor max_block_space =
    record {
      has_logger = has_logger;
      tx_encoder = tx_encoder;
      tx_decoder = tx_decoder;
      ante_handler = ante_handler;
      signer_extractor = signer_extractor;
      max_block_space = max_block_space;
      max_txs = pos 0;
    }

-- `TxPriority[C]`
pub record TxPriority (Ctx C : Type 0) : Type 0 where
  pub get_tx_priority : Ctx → Tx → C
  pub compare : C → C → ℤ
  pub min_value : C

-- `DefaultTxPriority`
unfoldable pub default_tx_priority : {Ctx : Type 0} → TxPriority Ctx ℤ
default_tx_priority = record {
  get_tx_priority = λ ctx tx. pos 0;
  compare = λ a b. pos 0;
  min_value = pos 0;
}

-- `Mempool[C]`: its index, and its `Compare`, which a nil extractor has not.
pub record Mempool (Ctx M : Type 0) : Type 0 where
  pub index : M
  pub compare : Option (Ctx → Tx → Tx → Result CompareError ℤ)

pub data SetupError : Type 0 where
  nil_logger nil_encoder nil_decoder nil_extractor bad_block_space : SetupError
  empty_name nil_mempool nil_match_handler nil_prepare_handler nil_process_handler : SetupError

-- How a constructor ends.
pub data Built {ℓ} (A : Type ℓ) : Type ℓ where
  built : A → Built A
  refused : SetupError → Built A
  build_panic : Built A

-- `if err != nil { panic(err) }`
unfoldable pub must {ℓ} : {A : Type ℓ} → Built A → Built A
must (built a) = built a
must (refused e) = build_panic
must build_panic = build_panic

abbrev pub is_set {ℓ} : {A : Type ℓ} → Option A → Bool
is_set none = false
is_set (some a) = true

-- The fields of `BaseLane`.
pub record LaneSetup (Ctx LegacyDec M : Type 0) : Type 0 where
  pub cfg : SetupConfig Ctx LegacyDec
  pub lane_name : String
  pub mempool : Option (Mempool Ctx M)
  pub match_handler : Option (MatchHandler Ctx)
  pub prepare_lane_handler :
      Option (LaneCore Ctx LegacyDec M → Ctx → Proposal → LaneLimits → Outcome (Reaped Ctx))
  pub process_lane_handler : Option (LaneCore Ctx LegacyDec M → Ctx → List Tx → Outcome (Split Ctx))

-- `LaneOption`; `none` is a panic.
abbrev pub LaneOption : Type 0 → Type 0 → Type 0 → Type 0
LaneOption Ctx LegacyDec M = LaneSetup Ctx LegacyDec M → Option (LaneSetup Ctx LegacyDec M)

module _ {Ctx LegacyDec M : Type 0} where
  -- `WithAnteHandler`
  unfoldable pub with_ante_handler :
      Option (Ctx → Tx → Bool → Result String Ctx) → LaneOption Ctx LegacyDec M
  with_ante_handler ante l = some (record l { cfg = record l.cfg { ante_handler = ante } })

  -- `WithPrepareLaneHandler`
  unfoldable pub with_prepare_lane_handler :
      Option (LaneCore Ctx LegacyDec M → Ctx → Proposal → LaneLimits → Outcome (Reaped Ctx))
      → LaneOption Ctx LegacyDec M
  with_prepare_lane_handler none l = none
  with_prepare_lane_handler (some handler) l =
      some (record l { prepare_lane_handler = some handler })

  -- `WithProcessLaneHandler`
  unfoldable pub with_process_lane_handler :
      Option (LaneCore Ctx LegacyDec M → Ctx → List Tx → Outcome (Split Ctx))
      → LaneOption Ctx LegacyDec M
  with_process_lane_handler none l = none
  with_process_lane_handler (some handler) l =
      some (record l { process_lane_handler = some handler })

  -- `WithMatchHandler`
  unfoldable pub with_match_handler : Option (MatchHandler Ctx) → LaneOption Ctx LegacyDec M
  with_match_handler none l = none
  with_match_handler (some handler) l = some (record l { match_handler = some handler })

  -- `WithMempool`
  unfoldable pub with_mempool : Option (Mempool Ctx M) → LaneOption Ctx LegacyDec M
  with_mempool none l = none
  with_mempool (some mempool) l = some (record l { mempool = some mempool })

  -- The loop over the options, also that of `WithOptions`.
  unfoldable pub with_options :
      List (LaneOption Ctx LegacyDec M)
      → LaneSetup Ctx LegacyDec M
      → Option (LaneSetup Ctx LegacyDec M)
  with_options [] l = some l
  with_options (option ∷ options) l = elim (option l) [
    | none ↦ none
    | some l' ↦ with_options options l'
  ]

  -- `SetMaxBlockSpace`
  unfoldable pub set_max_block_space :
      LegacyDec → LaneSetup Ctx LegacyDec M → LaneSetup Ctx LegacyDec M
  set_max_block_space space l = record l { cfg = record l.cfg { max_block_space = space } }

-- `NewPriorityMempool` is a parameter: from a priority, an extractor and a cap it makes an index.
abbrev pub IndexMaker : Type 0 → Type 0 → Type 1
IndexMaker Ctx M = (C : Type 0) → TxPriority Ctx C → Option Extractor → ℤ → M

module _ {Ctx M : Type 0} (new_index : IndexMaker Ctx M) where
  -- `NewMempool`
  unfoldable pub new_mempool :
      (C : Type 0) → TxPriority Ctx C → Option Extractor → ℤ → Mempool Ctx M
  new_mempool C priority extractor max_tx = record {
    index = new_index C priority extractor max_tx;
    compare = elim extractor [
      | none ↦ none
      | some extract ↦ some (compare_txs extract priority.get_tx_priority priority.compare)
    ];
  }

module _ {Ctx LegacyDec M : Type 0} (new_index : IndexMaker Ctx M) where
  -- `WithMempoolConfigs`
  unfoldable pub with_mempool_configs :
      (C : Type 0) → SetupConfig Ctx LegacyDec → TxPriority Ctx C → LaneOption Ctx LegacyDec M
  with_mempool_configs C cfg priority l = some (record l {
    mempool = some (new_mempool new_index C priority cfg.signer_extractor cfg.max_txs);
  })

module _ {Ctx LegacyDec M : Type 0} (env : Env Ctx LegacyDec M) where
  -- `ValidateBasic` of the configuration
  unfoldable pub validate_config : SetupConfig Ctx LegacyDec → Result SetupError Unit
  validate_config cfg = do
    let space = cfg.max_block_space
    guard cfg.has_logger nil_logger
    guard (is_set cfg.tx_encoder) nil_encoder
    guard (is_set cfg.tx_decoder) nil_decoder
    guard (is_set cfg.signer_extractor) nil_extractor
    guard
        (not
          (env.ops.is_nil space || env.ops.is_negative space || env.ops.gt space env.ops.one_dec))
        bad_block_space

  -- `ValidateBasic` of the lane
  unfoldable pub validate_lane : LaneSetup Ctx LegacyDec M → Result SetupError Unit
  validate_lane l = do
    validate_config l.cfg
    guard (not (str_eq l.lane_name "")) empty_name
    guard (is_set l.mempool) nil_mempool
    guard (is_set l.match_handler) nil_match_handler
    guard (is_set l.prepare_lane_handler) nil_prepare_handler
    guard (is_set l.process_lane_handler) nil_process_handler

  -- The end of `NewBaseLane`.
  unfoldable pub finish_lane :
      Option (LaneSetup Ctx LegacyDec M) → Built (LaneSetup Ctx LegacyDec M)
  finish_lane none = build_panic
  finish_lane (some l) = elim (validate_lane l) [ err e ↦ refused e | ok _ ↦ built l ]

module _ {Ctx LegacyDec M : Type 0} (env : Env Ctx LegacyDec M) (new_index : IndexMaker Ctx M) where
  -- The lane of `NewBaseLane` before the options.
  unfoldable pub start_lane : SetupConfig Ctx LegacyDec → String → LaneSetup Ctx LegacyDec M
  start_lane cfg lane_name = record {
    cfg = cfg;
    lane_name = lane_name;
    mempool = some (new_mempool new_index ℤ default_tx_priority cfg.signer_extractor cfg.max_txs);
    match_handler = some default_match_handler;
    prepare_lane_handler = some (default_prepare env);
    process_lane_handler = some (default_process env);
  }

  -- `NewBaseLane`
  unfoldable pub new_base_lane :
      SetupConfig Ctx LegacyDec
      → String
      → List (LaneOption Ctx LegacyDec M)
      → Built (LaneSetup Ctx LegacyDec M)
  new_base_lane cfg lane_name options =
      finish_lane env (with_options options (start_lane cfg lane_name))

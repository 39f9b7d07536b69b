-- ===== src/Lanes/Complete.antt =====
-- lanes: when a constructor returns a lane, and which lane that is.
use block_sdk.Prelude.{
  ℕ, ◌≤◌, ◌≡◌, refl, sym, ap, ◌∙◌, subst, true, false, ◌||◌, ||-eq-false, inl, inr, Option, none,
  some, ℤ, pos, negsuc, ltb_ℤ, str_eq, ok, err, Result-cases, guard-eq-ok, arith,
}
use mathlib.Core.Path.{ap₂}
use block_sdk.Decimal.{DecLaws, precision}
use block_sdk.Base.{Env, MatchHandler}
use block_sdk.Base.Lane.{BaseLane, default_prepare, default_process}
use block_sdk.Base.Setup.{
  SetupConfig, IndexMaker, LaneSetup, Built, built, build_panic, must, is_set, new_mempool,
  default_tx_priority, with_match_handler, with_options, validate_config, validate_lane, start_lane,
  finish_lane, new_base_lane,
}
use block_sdk.Abci.Default.{IsDefault}
use block_sdk.Lanes.{lane_of, new_default_lane}

share_of :
    (z : ℤ)
    → ltb_ℤ z (pos 0) ≡ false
    → ltb_ℤ (pos precision) z ≡ false
    → (share : ℕ) × (z ≡ pos share) × (share ≤ precision)
share_of (pos u) h k = (u, refl, ground arith)
share_of (negsuc u) h k = absurd (ground arith)

set_value {ℓ} : {A : Type ℓ} (o : Option A) → is_set o ≡ true → (a : A) × (o ≡ some a)
set_value none h = cc
set_value (some a) h = (a, refl)

built-injective {ℓ} : {A : Type ℓ} (a b : A) → built a ≡ built b → a ≡ b
built-injective a b h = cc

never_built {ℓ} : {A : Type ℓ} (a : A) → ◌≡◌ {A = Built A} build_panic (built a) → ⊥
never_built a h = cc

module _ {Ctx LegacyDec M : Type 0} (env : Env Ctx LegacyDec M) (laws : DecLaws env.ops) where
  -- Nothing that a lane needs is nil, and the share is between 0 and 1.
  pub record IsComplete (cfg : SetupConfig Ctx LegacyDec) : Type 0 where
    pub logger : cfg.has_logger ≡ true
    pub encoder : is_set cfg.tx_encoder ≡ true
    pub decoder : is_set cfg.tx_decoder ≡ true
    pub extractor : is_set cfg.signer_extractor ≡ true
    pub known : env.ops.is_nil cfg.max_block_space ≡ false
    pub share : ℕ
    pub share_units : laws.units cfg.max_block_space ≡ pos share
    pub share_le : share ≤ precision

  space_share :
      (space : LegacyDec)
      → env.ops.is_negative space ≡ false
      → env.ops.gt space env.ops.one_dec ≡ false
      → (share : ℕ) × (laws.units space ≡ pos share) × (share ≤ precision)
  space_share space h k = share_of (laws.units space) (sym (laws.is_negative_lem space) ∙ h) (
      sym (laws.gt_lem space env.ops.one_dec ∙ ap (λ o. ltb_ℤ o (laws.units space)) laws.units_one)
      ∙ k)

  config-IsComplete :
      (cfg : SetupConfig Ctx LegacyDec) → validate_config env cfg ≡ ok tt → IsComplete cfg
  unfolding validate_config
  config-IsComplete cfg h =
      let (logger, h₁) = guard-eq-ok cfg.has_logger _ _ h in
      let (encoder, h₂) = guard-eq-ok (is_set cfg.tx_encoder) _ _ h₁ in
      let (decoder, h₃) = guard-eq-ok (is_set cfg.tx_decoder) _ _ h₂ in
      let (extractor, h₄) = guard-eq-ok (is_set cfg.signer_extractor) _ _ h₃ in
      let space = cfg.max_block_space in
      let fine : (env.ops.is_nil space
            || env.ops.is_negative space
            || env.ops.gt space env.ops.one_dec)
          ≡ false =
        ground arith in
      let (signs, within) =
        ||-eq-false (env.ops.is_nil space || env.ops.is_negative space)
          (env.ops.gt space env.ops.one_dec) fine in
      let (known, positive) =
        ||-eq-false (env.ops.is_nil space) (env.ops.is_negative space) signs in
      let (share, units, le) = space_share space positive within in
      record {
        logger = logger;
        encoder = encoder;
        decoder = decoder;
        extractor = extractor;
        known = known;
        share = share;
        share_units = units;
        share_le = le;
      }

  IsComplete-config :
      (cfg : SetupConfig Ctx LegacyDec) → IsComplete cfg → validate_config env cfg ≡ ok tt
  unfolding validate_config
  IsComplete-config cfg c =
      let space = cfg.max_block_space in
      let positive : env.ops.is_negative space ≡ false =
        laws.is_negative_lem space ∙ ap (λ z. ltb_ℤ z (pos 0)) c.share_units ∙ ground arith in
      let within : env.ops.gt space env.ops.one_dec ≡ false =
        laws.gt_lem space env.ops.one_dec ∙ ap₂ ltb_ℤ laws.units_one c.share_units ∙ ground arith in
      rw (c.logger, c.encoder, c.decoder, c.extractor, c.known, positive, within) refl

  -- The lane behind a value of `NewDefaultLane`: it has the default handlers, its share, its name
  -- and the match handler that was given.
  pub record IsDefaultLane (match : Option (MatchHandler Ctx)) (l : LaneSetup Ctx LegacyDec M)
      : Type 0 where
    pub lane : BaseLane Ctx LegacyDec M
    pub lane_lem : lane_of l ≡ some lane
    pub default : IsDefault env laws lane
    pub process : lane.process_lane_handler ≡ default_process env
    pub name : lane.lane_name ≡ "default"
    pub matches : match ≡ some lane.match_handler

  module _ (new_index : IndexMaker Ctx M) where
    -- what `NewDefaultLane` returns for a complete configuration
    abbrev default_setup : SetupConfig Ctx LegacyDec → MatchHandler Ctx → LaneSetup Ctx LegacyDec M
    default_setup cfg handler = record {
      cfg = cfg;
      lane_name = "default";
      mempool = some (new_mempool new_index ℤ default_tx_priority cfg.signer_extractor cfg.max_txs);
      match_handler = some handler;
      prepare_lane_handler = some (default_prepare env);
      process_lane_handler = some (default_process env);
    }

    default_setup-IsDefaultLane :
        (cfg : SetupConfig Ctx LegacyDec) (handler : MatchHandler Ctx)
        → IsComplete cfg
        → IsDefaultLane (some handler) (default_setup cfg handler)
    unfolding lane_of
    default_setup-IsDefaultLane cfg handler c =
        let (encoder, has_encoder) = set_value cfg.tx_encoder c.encoder in
        let (decoder, has_decoder) = set_value cfg.tx_decoder c.decoder in
        let (extract, has_extract) = set_value cfg.signer_extractor c.extractor in
        record {
          lane = record {
            cfg = record {
              tx_encoder = encoder;
              tx_decoder = decoder;
              ante_handler = cfg.ante_handler;
              get_signers = extract;
              max_block_space = cfg.max_block_space;
            };
            lane_name = "default";
            match_handler = handler;
            prepare_lane_handler = default_prepare env;
            process_lane_handler = default_process env;
          };
          lane_lem = ground (arith, has_encoder, has_decoder, has_extract);
          default = record {
            handler = refl;
            share = c.share;
            share_units = c.share_units;
            share_le = c.share_le;
          };
          process = refl;
          name = refl;
          matches = refl;
        }

    -- the constructor, by the result of the validation
    new_default_lane-eq :
        (cfg : SetupConfig Ctx LegacyDec) (handler : MatchHandler Ctx)
        → new_default_lane env new_index cfg (some handler) ≡ elim (validate_config env cfg) [
          | err e ↦ build_panic
          | ok _ ↦ built (default_setup cfg handler)
        ]
    unfolding new_default_lane must new_base_lane finish_lane with_options with_match_handler
        validate_lane start_lane str_eq validate_config
    new_default_lane-eq cfg handler = elim (Result-cases (validate_config env cfg)) [
      | inl (u, fine) ↦ rw fine refl
      | inr (e, bad) ↦ rw bad refl
    ]

    returned :
        (cfg : SetupConfig Ctx LegacyDec) (match : Option (MatchHandler Ctx))
        (l : LaneSetup Ctx LegacyDec M)
        → new_default_lane env new_index cfg match ≡ built l
        → IsComplete cfg × IsDefaultLane match l
    unfolding new_default_lane must new_base_lane finish_lane with_options with_match_handler
    returned cfg none l h = cc
    returned cfg (some handler) l h =
        let e = sym (new_default_lane-eq cfg handler) ∙ h in
        elim (Result-cases (validate_config env cfg)) [
          | inl (u, fine) ↦
              let complete = config-IsComplete cfg fine in
              (
                complete,
                subst (IsDefaultLane (some handler))
                    (built-injective (default_setup cfg handler) l (rw fine at e))
                    (default_setup-IsDefaultLane cfg handler complete),
              )
          | inr (failure, bad) ↦ absurd (never_built l (rw bad at e))
        ]

    made :
        (cfg : SetupConfig Ctx LegacyDec) (match : Option (MatchHandler Ctx))
        → IsComplete cfg
        → is_set match ≡ true
        → (l : LaneSetup Ctx LegacyDec M) × (new_default_lane env new_index cfg match ≡ built l)
    made cfg none c m = cc
    made cfg (some handler) c m = (
      default_setup cfg handler,
      new_default_lane-eq cfg handler ∙ rw (IsComplete-config cfg c) refl,
    )

    -- `NewDefaultLane` returns a lane only for a configuration in which nothing that a lane needs is
    -- nil and the share is between 0 and 1; the lane then has the default handlers, this share, the
    -- name of the default lane and the match handler, which is not nil. For such a configuration and
    -- such a handler it does return a lane.
    pub new_default_lane_iff :
        (cfg : SetupConfig Ctx LegacyDec) (match : Option (MatchHandler Ctx))
        → ((l : LaneSetup Ctx LegacyDec M)
            → new_default_lane env new_index cfg match ≡ built l
            → IsComplete cfg × IsDefaultLane match l)
          × (IsComplete cfg
              → is_set match ≡ true
              → (l : LaneSetup Ctx LegacyDec M) × (new_default_lane env new_index cfg match
                  ≡ built l))
    new_default_lane_iff cfg match = (returned cfg match, made cfg match)

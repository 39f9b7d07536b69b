-- ===== src/Abci/Contract.antt =====
-- block/base/proposals.go: a lane with the default handlers keeps the contract of the chain.
use block_sdk.Prelude.{
  ◌≡◌, refl, sym, ap, ◌∙◌, subst, String, true, List, [], ◌∷◌, ◌++◌, All, Result, ok,
}
use block_sdk.Proposals.{Bytes, Proposal, LaneLimits}
use block_sdk.Sdk.{Tx}
use block_sdk.Base.{Env}
use block_sdk.Base.Select.{default_prepare_lane_handler}
use block_sdk.Base.Process.{default_process_lane_handler}
use block_sdk.Base.Selection.{Admits}
use block_sdk.Base.Acceptance.{IsForeign, IsProcessed}
use block_sdk.Base.RoundTrip.{Pairs, Precedes, default_process_lane_handler_iff}
use block_sdk.Base.Replay.{default_prepare_lane_handler-Admits, process-prepare_other}
use block_sdk.Base.Lane.{
  finished, BaseLane, Reaped, core_of, split_of, default_prepare, default_process,
}
use block_sdk.Abci.Coherent.{IsStranger, Prepares, IsCoherent}
use block_sdk.Abci.Process.{default_process-IsSplitting}

pub finished-injective : {A : Type 0} (a b : A) → finished a ≡ finished b → a ≡ b
finished-injective a b h = cc

-- Transactions that match a lane in no context do not match it in this one.
pub strangers-IsForeign :
    {Ctx LegacyDec M : Type 0} (env : Env Ctx LegacyDec M) (lane : BaseLane Ctx LegacyDec M)
    (pool : M) (c : Ctx) (txs : List Tx)
    → All (IsStranger lane) txs
    → All (IsForeign env (core_of lane pool) c) txs
strangers-IsForeign env lane pool c [] h = tt
strangers-IsForeign env lane pool c (tx ∷ txs) h =
    (h.0 c, strangers-IsForeign env lane pool c txs h.1)

module _ {Ctx LegacyDec M : Type 0} (env : Env Ctx LegacyDec M)
    (Owns : BaseLane Ctx LegacyDec M → Tx → Type 0) (encode : Tx → Result String Bytes)
    (lane : BaseLane Ctx LegacyDec M) (encoder : lane.cfg.tx_encoder ≡ encode)
    (prepares : lane.prepare_lane_handler ≡ default_prepare env)
    (processes : lane.process_lane_handler ≡ default_process env)
    (ordered : (c : Ctx) (pool other : M)
      → Pairs (Precedes env (core_of lane other)) (env.pool.select c pool))
    (owns : (c : Ctx) (tx : Tx) → lane.match_handler c tx ≡ true → Owns lane tx) where
  Admits-owned :
      (pool : M) (c c' : Ctx) (txs : List Tx)
      → Admits env (core_of lane pool) c txs c'
      → All (Owns lane) txs
  unfolding Admits
  Admits-owned pool c c' [] h = tt
  Admits-owned pool c c' (tx ∷ txs) (matched, next, _, more) =
      (owns c tx matched, Admits-owned pool next c' txs more)

  Admits-idle :
      (pool : M) (c c' : Ctx) (txs : List Tx)
      → Admits env (core_of lane pool) c txs c'
      → txs ≡ []
      → c' ≡ c
  unfolding Admits
  Admits-idle pool c c' [] h e = sym h
  Admits-idle pool c c' (tx ∷ txs) h e = cc

  -- what the handler returns
  abbrev reaped_of : M → Ctx → Proposal → LaneLimits → Reaped Ctx
  reaped_of pool c p limit =
      let s = default_prepare_lane_handler env (core_of lane pool) c p limit in
      record { to_include = s.to_include; to_remove = s.to_remove; ctx = s.ctx }

  returned :
      (pool : M) (c : Ctx) (p : Proposal) (limit : LaneLimits) (reaped : Reaped Ctx)
      → Prepares env lane pool c p limit reaped
      → reaped_of pool c p limit ≡ reaped
  unfolding default_prepare
  returned pool c p limit reaped h =
      finished-injective _ reaped (ap (λ f. f (core_of lane pool) c p limit) (sym prepares) ∙ h)

  process_eq :
      (other : M) (c c' : Ctx) (txs own rest : List Tx)
      → default_process_lane_handler env (core_of lane other) c txs ≡ ok (own, rest, c')
      → lane.process_lane_handler (core_of lane other) c txs
        ≡ finished (record { from_lane = own; remaining = rest; ctx = c' })
  unfolding default_process split_of
  process_eq other c c' txs own rest h =
      ap (λ f. f (core_of lane other) c txs) processes ∙ ap (split_of env) h

  accepts_own :
      (pool other : M) (c : Ctx) (p : Proposal) (limit : LaneLimits) (rest : List Tx)
      → All (IsStranger lane) rest
      → lane.process_lane_handler
          (core_of lane other)
          c
          ((reaped_of pool c p limit).to_include ++ rest)
        ≡ finished (record {
          from_lane = (reaped_of pool c p limit).to_include;
          remaining = rest;
          ctx = (reaped_of pool c p limit).ctx;
        })
  accepts_own pool other c p limit rest h = process_eq other c _ _ _ rest (
      process-prepare_other env (core_of lane pool) other c p limit rest (ordered c pool other)
        (strangers-IsForeign env lane other _ rest h))

  -- A lane with the default handlers and the encoder of the application keeps the contract, if the
  -- iterators of all mempools give the transactions in its order and it owns all that matches it.
  pub default-IsCoherent : IsCoherent env Owns encode lane
  unfolding IsProcessed
  default-IsCoherent = record {
    splitting = default_process-IsSplitting env encode lane encoder processes;
    owned = λ pool c p limit reaped h.
        subst (λ (r : Reaped Ctx). All (Owns lane) r.to_include) (returned pool c p limit reaped h)
          (Admits-owned pool c _ _
            (default_prepare_lane_handler-Admits env (core_of lane pool) c p limit));
    idle = λ pool c p limit reaped h.
        subst (λ (r : Reaped Ctx). r.to_include ≡ [] → r.ctx ≡ c) (returned pool c p limit reaped h)
          (Admits-idle pool c _ _
            (default_prepare_lane_handler-Admits env (core_of lane pool) c p limit));
    accepts = λ pool other c p limit reaped rest h strangers.
        subst
          (λ (r : Reaped Ctx).
            lane.process_lane_handler (core_of lane other) c (r.to_include ++ rest)
            ≡ finished (record { from_lane = r.to_include; remaining = rest; ctx = r.ctx }))
          (returned pool c p limit reaped h) (accepts_own pool other c p limit rest strangers);
    passes = λ other c rest strangers. process_eq other c c rest [] rest (
        (default_process_lane_handler_iff env (core_of lane other) c rest [] rest c).1
          (refl, (refl, strangers-IsForeign env lane other c rest strangers)));
  }

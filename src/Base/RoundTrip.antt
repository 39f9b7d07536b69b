-- ===== src/Base/RoundTrip.antt =====
-- block/base/proposals.go: what the default `PrepareLaneHandler` selects, the default
-- `ProcessLaneHandler` accepts.
use mathlib.Core.List.{append_assoc, append-nil}
use block_sdk.Prelude.{
  ◌≡◌, ◌↔◌, refl, sym, subst, true, Option, none, some, List, [], ◌∷◌, ◌++◌, All, ok, pos, ◌≤ℤ◌,
}
use block_sdk.Proposals.{Proposal, LaneLimits}
use block_sdk.Sdk.{Tx}
use block_sdk.Base.{Env, LaneCore}
use block_sdk.Base.Select.{
  Verdict, skip, evict, select, Selection, no_selection, judge, apply_verdict, select_txs,
  default_prepare_lane_handler,
}
use block_sdk.Base.Process.{in_order, check_order, process_txs, default_process_lane_handler}
use block_sdk.Base.Selection.{Admits, default_prepare_lane_handler-IsChosen}
use block_sdk.Base.Acceptance.{
  IsForeign, IsProcessed, IsProcessed-process_txs, process_txs-IsProcessed,
}

-- Every element is related to all that stand behind it.
abbrev pub Pairs : {A : Type 0} → (A → A → Type 0) → List A → Type 0
Pairs R [] = Unit
Pairs R (x ∷ xs) = All (R x) xs × Pairs R xs

All-drop_middle :
    {A : Type 0} (P : A → Type 0) (xs : List A) (y : A) (zs : List A)
    → All P (xs ++ y ∷ zs)
    → All P (xs ++ zs)
All-drop_middle P [] y zs h = h.1
All-drop_middle P (x ∷ xs) y zs h = (h.0, All-drop_middle P xs y zs h.1)

Pairs-drop_middle :
    {A : Type 0} (R : A → A → Type 0) (xs : List A) (y : A) (zs : List A)
    → Pairs R (xs ++ y ∷ zs)
    → Pairs R (xs ++ zs)
Pairs-drop_middle R [] y zs h = h.1
Pairs-drop_middle R (x ∷ xs) y zs h =
    (All-drop_middle (R x) xs y zs h.0, Pairs-drop_middle R xs y zs h.1)

module _ {Ctx LegacyDec M : Type 0} (env : Env Ctx LegacyDec M)
    (lane : LaneCore Ctx LegacyDec M) where
  -- In no context does the second transaction have a higher priority than the first.
  abbrev pub Precedes : Tx → Tx → Type 0
  Precedes this other = (c : Ctx) → in_order env lane c this other ≡ true

  module _ (proposal : Proposal) (limit : LaneLimits) (R : Tx → Tx → Type 0) where
    step-Pairs :
        (tx : Tx) (txs : List Tx) (s : Selection Ctx) (v : Verdict Ctx)
        → Pairs R (s.to_include ++ tx ∷ txs)
        → Pairs R ((apply_verdict env lane tx s v).to_include ++ txs)
    unfolding apply_verdict
    step-Pairs tx txs s skip h = Pairs-drop_middle R s.to_include tx txs h
    step-Pairs tx txs s evict h = Pairs-drop_middle R s.to_include tx txs h
    step-Pairs tx txs s (select info c) h =
        subst (Pairs R) (sym (append_assoc s.to_include (tx ∷ []) txs)) h

    -- The transactions to include stand in the order of the iterator.
    pub select_txs-Pairs :
        (txs : List Tx) (s : Selection Ctx)
        → Pairs R (s.to_include ++ txs)
        → Pairs R (select_txs env lane proposal limit txs s).to_include
    unfolding select_txs
    select_txs-Pairs [] s h = subst (Pairs R) (append-nil s.to_include) h
    select_txs-Pairs (tx ∷ txs) s h =
        select_txs-Pairs txs _ (step-Pairs tx txs s (judge env lane proposal limit s tx) h)

  -- The transaction before, if there is one, precedes the first of the list.
  abbrev pub PrecedesFirst : Option Tx → List Tx → Type 0
  PrecedesFirst none txs = Unit
  PrecedesFirst (some previous) txs = All (Precedes previous) txs

  check_order_ok :
      (c : Ctx) (previous : Option Tx) (tx : Tx) (txs : List Tx)
      → PrecedesFirst previous (tx ∷ txs)
      → check_order env lane c previous tx ≡ ok tt
  unfolding check_order
  check_order_ok c none tx txs h = refl
  check_order_ok c (some previous) tx txs h = rw (h.0 c)

  pub Admits-IsProcessed :
      (previous : Option Tx) (c : Ctx) (own rest : List Tx) (c' : Ctx)
      → Admits env lane c own c'
      → PrecedesFirst previous own
      → Pairs Precedes own
      → All (IsForeign env lane c') rest
      → IsProcessed env lane previous c own rest c'
  unfolding Admits IsProcessed
  Admits-IsProcessed previous c [] rest c' e first pairs foreign =
      (e, subst (λ d. All (IsForeign env lane d) rest) (sym e) foreign)
  Admits-IsProcessed previous c (tx ∷ own) rest c' (matched, next, verified, more) first pairs
        foreign =
      (
        matched,
        check_order_ok c previous tx own first,
        next,
        verified,
        Admits-IsProcessed (some tx) next own rest c' more pairs.0 pairs.1 foreign,
      )

  -- The default `ProcessLaneHandler` returns `own`, `rest` and the context `c'` exactly when the
  -- proposal is `own` followed by `rest`, the transactions of `own` match the lane, follow the order
  -- of the lane and pass the ante handler one after the other up to the context `c'`, and none of
  -- `rest` matches the lane at `c'`.
  pub default_process_lane_handler_iff :
      (ctx : Ctx) (txs own rest : List Tx) (c' : Ctx)
      → (default_process_lane_handler env lane ctx txs ≡ ok (own, rest, c'))
        ↔ ((txs ≡ own ++ rest) × IsProcessed env lane none ctx own rest c')
  unfolding default_process_lane_handler
  default_process_lane_handler_iff ctx txs own rest c' = (
    process_txs-IsProcessed env lane none ctx txs own rest c',
    λ h.
        subst (λ l. process_txs env lane none l ctx ≡ ok (own, rest, c')) (sym h.0)
          (IsProcessed-process_txs env lane none ctx own rest c' h.1),
  )

  -- If the iterator of the mempool gives the transactions in the order of the lane, then what the
  -- default `PrepareLaneHandler` selects, followed by any transactions that do not match the lane in
  -- the context that it leaves, is accepted by the default `ProcessLaneHandler` from the same
  -- context: it splits the proposal at that place and leaves the same context.
  pub process-prepare :
      (ctx : Ctx) (proposal : Proposal) (limit : LaneLimits) (rest : List Tx)
      → pos 0 ≤ℤ limit.max_tx_bytes
      → Pairs Precedes (env.pool.select ctx lane.mempool)
      → All (IsForeign env lane (default_prepare_lane_handler env lane ctx proposal limit).ctx) rest
      → default_process_lane_handler env lane ctx
          ((default_prepare_lane_handler env lane ctx proposal limit).to_include ++ rest)
        ≡ ok (
          (default_prepare_lane_handler env lane ctx proposal limit).to_include,
          rest,
          (default_prepare_lane_handler env lane ctx proposal limit).ctx,
        )
  unfolding default_prepare_lane_handler
  process-prepare ctx proposal limit rest nonnegative ordered foreign =
      let (infos, chosen) =
        default_prepare_lane_handler-IsChosen env lane ctx proposal limit nonnegative in
      let txs = env.pool.select ctx lane.mempool in
      (default_process_lane_handler_iff ctx _ _ rest _).1 (
        refl,
        Admits-IsProcessed none ctx _ rest _ chosen.admitted tt
            (select_txs-Pairs proposal limit Precedes txs (no_selection ctx) ordered) foreign,
      )

-- ===== src/Base/Progress.antt =====
-- block/base/proposals.go: the default `PrepareLaneHandler` does not pass over transactions that fit.
use block_sdk.Prelude.{
  ℕ, ◌+◌, ◌^◌, ◌≤◌, ◌<◌, ◌≡◌, refl, sym, ap, ◌∙◌, true, false, List, [], ◌∷◌, ◌++◌, pos, add_int64,
  add_uint64, add_int64_exact, add_uint64_exact, length, All, ok, arith,
}
use mathlib.Core.Path.{ap₂}
use mathlib.Core.List.{append-nil, append_assoc}
use block_sdk.Proposals.{Proposal, LaneLimits, TxWithInfo}
use block_sdk.Proposals.Totals.{IsNew, IsSized, bytes_of, total_bytes, gas_of}
use block_sdk.Sdk.{Tx}
use block_sdk.Base.{Env, LaneCore, get_tx_info, verify_tx}
use block_sdk.Base.Select.{
  Verdict, skip, evict, select, Selection, no_selection, judge, judge_info, judge_ante,
  apply_verdict, select_txs, default_prepare_lane_handler,
}
use block_sdk.Base.Selection.{Admits, AreInfos}
use block_sdk.Base.Exact.{get_tx_info-IsSized}

module _ {Ctx LegacyDec M : Type 0} (env : Env Ctx LegacyDec M) (lane : LaneCore Ctx LegacyDec M)
    (proposal : Proposal) (limit : LaneLimits) (b : ℕ) (bytes : limit.max_tx_bytes ≡ pos b)
    (small : b < 2 ^ 63) (gas_small : limit.max_gas_limit < 2 ^ 64) where
  verdict_grows :
      (s : Selection Ctx) (tx : Tx) (v : Verdict Ctx)
      → (added : List Tx) × ((apply_verdict env lane tx s v).to_include ≡ s.to_include ++ added)
  unfolding apply_verdict
  verdict_grows s tx skip = ([], sym (append-nil s.to_include))
  verdict_grows s tx evict = ([], sym (append-nil s.to_include))
  verdict_grows s tx (select info c) = (tx ∷ [], refl)

  -- What is selected stays selected.
  to_include_grows :
      (txs : List Tx) (s : Selection Ctx)
      → (more : List Tx) × ((select_txs env lane proposal limit txs s).to_include
          ≡ s.to_include ++ more)
  unfolding select_txs
  to_include_grows [] s = ([], sym (append-nil s.to_include))
  to_include_grows (tx ∷ txs) s =
      let v = judge env lane proposal limit s tx in
      let (more, e) = to_include_grows txs (apply_verdict env lane tx s v) in
      let (added, e') = verdict_grows s tx v in
      (added ++ more, e ∙ ap (λ l. l ++ more) e' ∙ append_assoc s.to_include added more)

  -- A transaction that fits is selected.
  judge_fitting :
      (s : Selection Ctx) (tx : Tx) (info : TxWithInfo) (c : Ctx) (m g : ℕ)
      → s.total_size ≡ pos m
      → s.total_gas ≡ g
      → get_tx_info env lane tx ≡ ok info
      → lane.match_handler s.ctx tx ≡ true
      → verify_tx env lane s.ctx tx false ≡ ok c
      → IsNew proposal info
      → m + length info.tx_bytes ≤ b
      → g + info.gas_limit ≤ limit.max_gas_limit
      → judge env lane proposal limit s tx ≡ select info c
  unfolding judge judge_info judge_ante
  judge_fitting s tx info c m g size gas known matches verified new fits gas_fits =
      let sized : IsSized info = get_tx_info-IsSized env lane tx known in
      ground (
        arith,
        sized,
        bytes,
        add_int64_exact m (length info.tx_bytes),
        add_uint64_exact g info.gas_limit,
      )

  -- The loop over transactions that fit, whatever follows them.
  select_txs_fitting :
      (txs rest : List Tx) (infos : List TxWithInfo) (s : Selection Ctx) (c : Ctx) (m g : ℕ)
      → s.total_size ≡ pos m
      → s.total_gas ≡ g
      → Admits env lane s.ctx txs c
      → AreInfos env lane txs infos
      → All (IsNew proposal) infos
      → m + total_bytes (bytes_of infos) ≤ b
      → g + gas_of infos ≤ limit.max_gas_limit
      → (more : List Tx) × ((select_txs env lane proposal limit (txs ++ rest) s).to_include
          ≡ s.to_include ++ (txs ++ more))
  unfolding select_txs Admits AreInfos apply_verdict
  select_txs_fitting [] rest infos s c m g size gas admitted described new fits gas_fits =
      to_include_grows rest s
  select_txs_fitting (tx ∷ txs) rest [] s c m g size gas admitted described new fits gas_fits =
      absurd described
  select_txs_fitting (tx ∷ txs) rest (info ∷ infos) s c m g size gas
        (matches, next, verified, later) (known, described) (new, news) fits gas_fits =
      let sized : IsSized info = get_tx_info-IsSized env lane tx known in
      let chosen =
        judge_fitting s tx info next m g size gas known matches verified new (omega arith)
          (omega arith) in
      let (more, e) =
        select_txs_fitting txs rest infos (apply_verdict env lane tx s (select info next)) c
          (m + length info.tx_bytes) (g + info.gas_limit)
          (ap₂ add_int64 size sized ∙ add_int64_exact m (length info.tx_bytes) (omega arith))
          (ap (λ n. add_uint64 n info.gas_limit) gas
            ∙ add_uint64_exact g info.gas_limit (omega arith))
          later described news (omega arith) (omega arith) in
      (
        more,
        ap
              (λ (v : Verdict Ctx).
                (select_txs env lane proposal limit (txs ++ rest)
                  (apply_verdict env lane tx s v)).to_include)
              chosen
            ∙ e
            ∙ append_assoc s.to_include (tx ∷ []) (txs ++ more),
      )

  -- Where the limit of bytes is not negative: transactions at the front of the mempool that match
  -- the lane and pass the ante handler one after the other, that `GetTxInfo` describes, none of which
  -- is in the proposal, and whose true sums of bytes and gas are within the limits of the lane, are
  -- all selected, in their order and before all others, whatever follows them in the mempool.
  pub default_prepare_lane_handler_progress :
      (ctx c : Ctx) (txs rest : List Tx) (infos : List TxWithInfo)
      → env.pool.select ctx lane.mempool ≡ txs ++ rest
      → Admits env lane ctx txs c
      → AreInfos env lane txs infos
      → All (IsNew proposal) infos
      → total_bytes (bytes_of infos) ≤ b
      → gas_of infos ≤ limit.max_gas_limit
      → (more : List Tx) × ((default_prepare_lane_handler env lane ctx proposal limit).to_include
          ≡ txs ++ more)
  unfolding default_prepare_lane_handler
  default_prepare_lane_handler_progress ctx c txs rest infos held admitted described new fits
        gas_fits =
      rw held (
        select_txs_fitting txs rest infos (no_selection ctx) c 0 0 refl refl admitted described new
          (omega arith) (omega arith))

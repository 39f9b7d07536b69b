-- ===== src/Base/Exact.antt =====
-- The sums of the default `PrepareLaneHandler` do not wrap round where the limits are small.
use block_sdk.Prelude.{
  ℕ, ◌+◌, ◌^◌, ◌≤◌, ◌<◌, ◌≡◌, refl, List, [], ◌∷◌, ◌++◌, pos, ◌≤ℤ◌, add_int64_exact,
  add_uint64_exact, length, All, ok, arith,
}
use block_sdk.Proposals.{Proposal, LaneLimits, TxWithInfo}
use block_sdk.Proposals.Totals.{IsSized, bytes_of, total_bytes, gas_of}
use block_sdk.Sdk.{Tx}
use block_sdk.Base.{Env, LaneCore, get_tx_info}
use block_sdk.Base.Select.{
  Verdict, skip, evict, select, Selection, no_selection, judge, apply_verdict, select_txs,
  default_prepare_lane_handler,
}
use block_sdk.Base.Selection.{
  Admits, AreInfos, IsSelected, judge-IsSelected, IsChosen, select-IsChosen,
}

module _ {Ctx LegacyDec M : Type 0} (env : Env Ctx LegacyDec M)
    (lane : LaneCore Ctx LegacyDec M) where
  pub get_tx_info-IsSized :
      (tx : Tx) {info : TxWithInfo} → get_tx_info env lane tx ≡ ok info → IsSized info
  unfolding get_tx_info
  get_tx_info-IsSized tx {info} h = ground arith

  pub AreInfos-IsSized :
      (txs : List Tx) (infos : List TxWithInfo) → AreInfos env lane txs infos → All IsSized infos
  unfolding AreInfos
  AreInfos-IsSized [] [] h = tt
  AreInfos-IsSized [] (i ∷ infos) h = absurd h
  AreInfos-IsSized (tx ∷ txs) [] h = absurd h
  AreInfos-IsSized (tx ∷ txs) (i ∷ infos) h =
      (get_tx_info-IsSized tx h.0, AreInfos-IsSized txs infos h.1)

  bytes_of-snoc :
      (infos : List TxWithInfo) (i : TxWithInfo)
      → total_bytes (bytes_of (infos ++ i ∷ [])) ≡ total_bytes (bytes_of infos) + length i.tx_bytes
  bytes_of-snoc [] i = omega arith
  bytes_of-snoc (j ∷ infos) i = omega (arith, bytes_of-snoc infos i)

  gas_of-snoc :
      (infos : List TxWithInfo) (i : TxWithInfo)
      → gas_of (infos ++ i ∷ []) ≡ gas_of infos + i.gas_limit
  gas_of-snoc [] i = omega arith
  gas_of-snoc (j ∷ infos) i = omega (arith, gas_of-snoc infos i)

  module _ (proposal : Proposal) (limit : LaneLimits) (b : ℕ) (bytes : limit.max_tx_bytes ≡ pos b)
      (small : b < 2 ^ 62) (gas_small : limit.max_gas_limit < 2 ^ 63) where
    pub record IsExact (s : Selection Ctx) (infos : List TxWithInfo) : Type 0 where
      pub size : s.total_size ≡ pos (total_bytes (bytes_of infos))
      pub gas : s.total_gas ≡ gas_of infos

    select-IsExact :
        (start : Ctx) (s : Selection Ctx) (infos : List TxWithInfo) (tx : Tx) (info : TxWithInfo)
        (c : Ctx)
        → IsChosen env lane proposal limit start s infos
        → IsExact s infos
        → IsSelected env lane proposal limit s tx info c
        → IsExact (apply_verdict env lane tx s (select info c)) (infos ++ info ∷ [])
    unfolding apply_verdict
    select-IsExact start s infos tx info c chosen exact sel =
        let sized : IsSized info = get_tx_info-IsSized tx sel.known in
        record {
          size = ground (
            arith,
            add_int64_exact (total_bytes (bytes_of infos)) (length info.tx_bytes),
            bytes_of-snoc infos info,
            exact.size,
            chosen.size_within,
            sel.bytes_alone,
            sized,
          );
          gas = ground (
            arith,
            add_uint64_exact (gas_of infos) info.gas_limit,
            gas_of-snoc infos info,
            exact.gas,
            chosen.gas_within,
            sel.gas_alone,
          );
        }

    abbrev Sums : Ctx → Selection Ctx → Type 0
    Sums start s =
        (infos : List TxWithInfo) × IsChosen env lane proposal limit start s infos × IsExact s infos

    step-Sums :
        (start : Ctx) (s : Selection Ctx) (tx : Tx) (v : Verdict Ctx)
        → judge env lane proposal limit s tx ≡ v
        → Sums start s
        → Sums start (apply_verdict env lane tx s v)
    unfolding apply_verdict
    step-Sums start s tx skip e sums = sums
    step-Sums start s tx evict e (infos, chosen, exact) = (
      infos,
      record {
        described = chosen.described;
        admitted = chosen.admitted;
        fresh = chosen.fresh;
        size = chosen.size;
        gas = chosen.gas;
        size_within = chosen.size_within;
        gas_within = chosen.gas_within;
      },
      record { size = exact.size; gas = exact.gas },
    )
    step-Sums start s tx (select info c) e (infos, chosen, exact) =
        let sel = judge-IsSelected env lane proposal limit s tx info c e in
        (
          infos ++ info ∷ [],
          select-IsChosen env lane proposal limit start s infos tx info c chosen sel,
          select-IsExact start s infos tx info c chosen exact sel,
        )

    select_txs-Sums :
        (start : Ctx) (txs : List Tx) (s : Selection Ctx)
        → Sums start s
        → Sums start (select_txs env lane proposal limit txs s)
    unfolding select_txs
    select_txs-Sums start [] s sums = sums
    select_txs-Sums start (tx ∷ txs) s sums =
        select_txs-Sums start txs _ (step-Sums start s tx _ refl sums)

    -- The true sums of what the default handler selects are within the limits of the lane, if the
    -- limit of bytes is below 2 ^ 62 and that of gas below 2 ^ 63.
    pub default_prepare_lane_handler_sums :
        (ctx : Ctx)
        → (infos : List TxWithInfo) × AreInfos env lane
            (default_prepare_lane_handler env lane ctx proposal limit).to_include
            infos
          × (total_bytes (bytes_of infos) ≤ b)
          × (gas_of infos ≤ limit.max_gas_limit)
    unfolding default_prepare_lane_handler AreInfos Admits
    default_prepare_lane_handler_sums ctx =
        let nonnegative : pos 0 ≤ℤ limit.max_tx_bytes = ground arith in
        let (infos, chosen, exact) =
          select_txs-Sums ctx (env.pool.select ctx lane.mempool) (no_selection ctx) (
            [],
            record {
              described = tt;
              admitted = refl;
              fresh = tt;
              size = refl;
              gas = refl;
              size_within = nonnegative;
              gas_within = omega arith;
            },
            record { size = refl; gas = refl },
          ) in
        (
          infos,
          chosen.described,
          ground (arith, chosen.size_within, exact.size),
          ground (arith, chosen.gas_within, exact.gas),
        )

-- ===== src/Base/Selection.antt =====
-- What the default `PrepareLaneHandler` selects.
use block_sdk.Prelude.{
  ◌≤◌, ◌≡◌, refl, sym, ap, ◌∙◌, subst, true, false, List, [], ◌∷◌, ◌++◌, pos, ◌≤ℤ◌, add_int64,
  add_uint64, All, All-append, ok, >>=-eq-ok, arith,
}
use block_sdk.Proposals.{Proposal, LaneLimits, TxWithInfo}
use block_sdk.Proposals.Update.{Totals, no_totals, add_tx}
use block_sdk.Proposals.Totals.{IsNew, add_all}
use block_sdk.Sdk.{Tx}
use block_sdk.Base.{Env, LaneCore, get_tx_info, get_tx_infos, verify_tx}
use block_sdk.Base.Select.{
  Verdict, skip, evict, select, Selection, no_selection, judge, judge_info, judge_ante,
  apply_verdict, select_txs, default_prepare_lane_handler,
}

pub add_all-append :
    (t : Totals) (xs : List TxWithInfo) (y : TxWithInfo)
    → add_all t (xs ++ y ∷ []) ≡ add_tx (add_all t xs) y
add_all-append t [] y = refl
add_all-append t (x ∷ xs) y = add_all-append (add_tx t x) xs y

module _ {Ctx LegacyDec M : Type 0} (env : Env Ctx LegacyDec M)
    (lane : LaneCore Ctx LegacyDec M) where
  -- The transactions match the lane and pass the ante handler one after the other, from the first
  -- context to the second.
  unfoldable pub Admits : Ctx → List Tx → Ctx → Type 0
  Admits c [] c' = c ≡ c'
  Admits c (tx ∷ txs) c' =
      (lane.match_handler c tx ≡ true)
      × (next : Ctx) × (verify_tx env lane c tx false ≡ ok next)
      × Admits next txs c'

  pub Admits-append :
      (c : Ctx) (txs : List Tx) (c' : Ctx) (tx : Tx) (c'' : Ctx)
      → Admits c txs c'
      → lane.match_handler c' tx ≡ true
      → verify_tx env lane c' tx false ≡ ok c''
      → Admits c (txs ++ tx ∷ []) c''
  unfolding Admits
  Admits-append c [] c' tx c'' e m v = (ground arith, c'', ground arith, refl)
  Admits-append c (t ∷ txs) c' tx c'' (m₁, next, v₁, rest) m v =
      (m₁, next, v₁, Admits-append next txs c' tx c'' rest m v)

  -- The second list is what `GetTxInfo` says of the first.
  unfoldable pub AreInfos : List Tx → List TxWithInfo → Type 0
  AreInfos [] [] = Unit
  AreInfos (tx ∷ txs) (info ∷ infos) = (get_tx_info env lane tx ≡ ok info) × AreInfos txs infos
  AreInfos _ _ = ⊥

  AreInfos-append :
      (txs : List Tx) (infos : List TxWithInfo) (tx : Tx) (info : TxWithInfo)
      → AreInfos txs infos
      → get_tx_info env lane tx ≡ ok info
      → AreInfos (txs ++ tx ∷ []) (infos ++ info ∷ [])
  unfolding AreInfos
  AreInfos-append [] [] tx info e h = (h, tt)
  AreInfos-append [] (i ∷ infos) tx info e h = absurd e
  AreInfos-append (t ∷ txs) [] tx info e h = absurd e
  AreInfos-append (t ∷ txs) (i ∷ infos) tx info e h = (e.0, AreInfos-append txs infos tx info e.1 h)

  pub AreInfos-get_tx_infos :
      (txs : List Tx) (infos : List TxWithInfo)
      → AreInfos txs infos
      → get_tx_infos env lane txs ≡ ok infos
  unfolding AreInfos get_tx_infos
  AreInfos-get_tx_infos [] [] e = refl
  AreInfos-get_tx_infos [] (i ∷ infos) e = absurd e
  AreInfos-get_tx_infos (t ∷ txs) [] e = absurd e
  AreInfos-get_tx_infos (t ∷ txs) (i ∷ infos) e = rw (e.0, AreInfos-get_tx_infos txs infos e.1)

  pub get_tx_infos-AreInfos :
      (txs : List Tx) {infos : List TxWithInfo}
      → get_tx_infos env lane txs ≡ ok infos
      → AreInfos txs infos
  unfolding AreInfos get_tx_infos
  get_tx_infos-AreInfos [] {infos} e =
      let done : [] ≡ infos = ground arith in subst (AreInfos []) done tt
  get_tx_infos-AreInfos (tx ∷ txs) {infos} e =
      let (i, known, e₁) = >>=-eq-ok (get_tx_info env lane tx) _ e in
      let (is, rest, e₂) = >>=-eq-ok (get_tx_infos env lane txs) _ e₁ in
      let done : (i ∷ is) ≡ infos = ground arith in
      subst (AreInfos (tx ∷ txs)) done (known, get_tx_infos-AreInfos txs rest)

  module _ (proposal : Proposal) (limit : LaneLimits) where
    -- What a verdict to select a transaction rests on.
    pub record IsSelected (s : Selection Ctx) (tx : Tx) (info : TxWithInfo) (c : Ctx) : Type 0 where
      pub known : get_tx_info env lane tx ≡ ok info
      pub matches : lane.match_handler s.ctx tx ≡ true
      pub fresh : IsNew proposal info
      pub bytes_fit : add_int64 s.total_size info.size ≤ℤ limit.max_tx_bytes
      pub gas_fits : add_uint64 s.total_gas info.gas_limit ≤ limit.max_gas_limit
      pub verified : verify_tx env lane s.ctx tx false ≡ ok c
      pub bytes_alone : info.size ≤ℤ limit.max_tx_bytes
      pub gas_alone : info.gas_limit ≤ limit.max_gas_limit

    pub judge-IsSelected :
        (s : Selection Ctx) (tx : Tx) (info : TxWithInfo) (c : Ctx)
        → judge env lane proposal limit s tx ≡ select info c
        → IsSelected s tx info c
    unfolding judge judge_info judge_ante
    judge-IsSelected s tx info c h = ground arith

    -- What the loop keeps: `infos` describes the transactions to include.
    pub record IsChosen (start : Ctx) (s : Selection Ctx) (infos : List TxWithInfo) : Type 0 where
      pub described : AreInfos s.to_include infos
      pub admitted : Admits start s.to_include s.ctx
      pub fresh : All (IsNew proposal) infos
      pub size : s.total_size ≡ (add_all no_totals infos).size
      pub gas : s.total_gas ≡ (add_all no_totals infos).gas
      pub size_within : s.total_size ≤ℤ limit.max_tx_bytes
      pub gas_within : s.total_gas ≤ limit.max_gas_limit

    pub select-IsChosen :
        (start : Ctx) (s : Selection Ctx) (infos : List TxWithInfo) (tx : Tx) (info : TxWithInfo)
        (c : Ctx)
        → IsChosen start s infos
        → IsSelected s tx info c
        → IsChosen start (apply_verdict env lane tx s (select info c)) (infos ++ info ∷ [])
    unfolding apply_verdict
    select-IsChosen start s infos tx info c h sel = record {
      described = AreInfos-append s.to_include infos tx info h.described sel.known;
      admitted = Admits-append start s.to_include s.ctx tx c h.admitted sel.matches sel.verified;
      fresh = All-append (IsNew proposal) infos (info ∷ []) h.fresh (sel.fresh, tt);
      size =
          ap (λ n. add_int64 n info.size) h.size
          ∙ sym (ap (λ (t : Totals). t.size) (add_all-append no_totals infos info));
      gas =
          ap (λ n. add_uint64 n info.gas_limit) h.gas
          ∙ sym (ap (λ (t : Totals). t.gas) (add_all-append no_totals infos info));
      size_within = sel.bytes_fit;
      gas_within = sel.gas_fits;
    }

    pub step-IsChosen :
        (start : Ctx) (s : Selection Ctx) (infos : List TxWithInfo) (tx : Tx) (v : Verdict Ctx)
        → judge env lane proposal limit s tx ≡ v
        → IsChosen start s infos
        → (infos' : List TxWithInfo) × IsChosen start (apply_verdict env lane tx s v) infos'
    unfolding apply_verdict
    step-IsChosen start s infos tx skip e h = (infos, h)
    step-IsChosen start s infos tx evict e h = (
      infos,
      record {
        described = h.described;
        admitted = h.admitted;
        fresh = h.fresh;
        size = h.size;
        gas = h.gas;
        size_within = h.size_within;
        gas_within = h.gas_within;
      },
    )
    step-IsChosen start s infos tx (select info c) e h = (
      infos ++ info ∷ [],
      select-IsChosen start s infos tx info c h (judge-IsSelected s tx info c e),
    )

    pub select_txs-IsChosen :
        (start : Ctx) (txs : List Tx) (s : Selection Ctx) (infos : List TxWithInfo)
        → IsChosen start s infos
        → (infos' : List TxWithInfo) × IsChosen start
            (select_txs env lane proposal limit txs s)
            infos'
    unfolding select_txs
    select_txs-IsChosen start [] s infos h = (infos, h)
    select_txs-IsChosen start (tx ∷ txs) s infos h =
        let (infos', h') =
          step-IsChosen start s infos tx (judge env lane proposal limit s tx) refl h in
        select_txs-IsChosen start txs _ infos' h'

  -- Whatever the mempool holds, the default handler selects transactions that match the lane and
  -- pass the ante handler one after the other, that `GetTxInfo` describes, that are not in the
  -- proposal, and whose bytes and gas, as the machine sums them, are within the limits of the lane.
  pub default_prepare_lane_handler-IsChosen :
      (ctx : Ctx) (proposal : Proposal) (limit : LaneLimits)
      → pos 0 ≤ℤ limit.max_tx_bytes
      → (infos : List TxWithInfo) × IsChosen proposal limit ctx
          (default_prepare_lane_handler env lane ctx proposal limit)
          infos
  unfolding default_prepare_lane_handler AreInfos Admits
  default_prepare_lane_handler-IsChosen ctx proposal limit h =
      select_txs-IsChosen proposal limit ctx (env.pool.select ctx lane.mempool) (no_selection ctx)
        []
        (record {
          described = tt;
          admitted = refl;
          fresh = tt;
          size = refl;
          gas = refl;
          size_within = h;
          gas_within = omega arith;
        })

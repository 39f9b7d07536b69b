-- ===== src/Abci/Process.antt =====
-- abci: what `ChainProcessLanes` accepts.
use mathlib.Core.List.{append_assoc, append-nil}
use block_sdk.Prelude.{
  ◌≡◌, refl, sym, ap, ◌∙◌, subst, String, List, [], ◌∷◌, ◌++◌, Result, ok, err, arith,
}
use block_sdk.Proposals.{Bytes, Proposal, TxWithInfo}
use block_sdk.Proposals.Update.{LaneInfo, update_proposal, write_update, no_totals}
use block_sdk.Proposals.Totals.{bytes_of, txs-add_all}
use block_sdk.Proposals.Effect.{update_proposal-Accepts}
use block_sdk.Sdk.{Tx}
use block_sdk.Base.{Env, LaneCore, LaneError, get_tx_info}
use block_sdk.Base.RoundTrip.{default_process_lane_handler_iff}
use block_sdk.Base.Process.{default_process_lane_handler}
use block_sdk.Base.Selection.{AreInfos, get_tx_infos-AreInfos}
use block_sdk.Base.Lane.{
  Failure, Outcome, finished, failed, panicked, BaseLane, Lane, base, terminator, Split, core_of,
  info_of, add_to_proposal, default_process, split_of, ProcessLanesHandler, process_lane,
  finish_process, pass_on,
}
use block_sdk.Abci.{terminated, run_process, chain_process_lanes}
use block_sdk.Abci.Chain.{AllLanes}
use block_sdk.Abci.Prepare.{add_to_proposal-eq-ok, AllLanes-terminated}

-- The second list holds the encodings of the first.
unfoldable pub AreEncodings : (Tx → Result String Bytes) → List Tx → List Bytes → Type 0
AreEncodings encode [] [] = Unit
AreEncodings encode (tx ∷ txs) (b ∷ bs) = (encode tx ≡ ok b) × AreEncodings encode txs bs
AreEncodings encode _ _ = ⊥

AreEncodings-append :
    (encode : Tx → Result String Bytes) (xs ys : List Tx) (cs bs : List Bytes)
    → AreEncodings encode xs cs
    → AreEncodings encode ys bs
    → AreEncodings encode (xs ++ ys) (cs ++ bs)
unfolding AreEncodings
AreEncodings-append encode [] ys [] bs h k = k
AreEncodings-append encode [] ys (a ∷ cs) bs h k = absurd h
AreEncodings-append encode (x ∷ xs) ys [] bs h k = absurd h
AreEncodings-append encode (x ∷ xs) ys (a ∷ cs) bs h k =
    (h.0, AreEncodings-append encode xs ys cs bs h.1 k)

failed-finished : {A : Type 0} (e : Failure) (q : A) → ¬ (failed e ≡ finished q)
failed-finished e q h = ground arith

panicked-finished : {A : Type 0} (q : A) → ¬ (panicked ≡ finished q)
panicked-finished q h = ground arith

module _ {Ctx LegacyDec M : Type 0} (env : Env Ctx LegacyDec M) where
  get_tx_info_bytes :
      (lane : LaneCore Ctx LegacyDec M) (tx : Tx) {info : TxWithInfo}
      → get_tx_info env lane tx ≡ ok info
      → lane.cfg.tx_encoder tx ≡ ok info.tx_bytes
  unfolding get_tx_info
  get_tx_info_bytes lane tx {info} h = ground arith

  AreInfos-AreEncodings :
      (lane : LaneCore Ctx LegacyDec M) (txs : List Tx) (infos : List TxWithInfo)
      → AreInfos env lane txs infos
      → AreEncodings lane.cfg.tx_encoder txs (bytes_of infos)
  unfolding AreInfos AreEncodings
  AreInfos-AreEncodings lane [] [] h = tt
  AreInfos-AreEncodings lane [] (i ∷ is) h = absurd h
  AreInfos-AreEncodings lane (t ∷ ts) [] h = absurd h
  AreInfos-AreEncodings lane (t ∷ ts) (i ∷ is) h =
      (get_tx_info_bytes lane t h.0, AreInfos-AreEncodings lane ts is h.1)

  update_proposal_txs :
      (lane : LaneInfo LegacyDec) (infos : List TxWithInfo) (p p' : Proposal)
      → update_proposal env.ops lane infos p ≡ ok p'
      → p'.txs ≡ p.txs ++ bytes_of infos
  unfolding update_proposal write_update
  update_proposal_txs lane [] p p' h =
      let e : p ≡ p' = ground arith in ap (λ (q : Proposal). q.txs) (sym e) ∙ sym (append-nil p.txs)
  update_proposal_txs lane (tx ∷ txs) p p' h =
      let (_, e) = update_proposal-Accepts env.ops lane tx txs p h in
      ap (λ (q : Proposal). q.txs) e ∙ ap (λ l. p.txs ++ l) (txs-add_all (tx ∷ txs) no_totals)

  -- A lane that encodes as the application does, and whose handler splits what it is given in two.
  pub record IsSplitting (encode : Tx → Result String Bytes) (lane : BaseLane Ctx LegacyDec M)
      : Type 0 where
    pub encoder : lane.cfg.tx_encoder ≡ encode
    pub splits :
        (core : LaneCore Ctx LegacyDec M) (ctx : Ctx) (txs : List Tx) (s : Split Ctx)
        → lane.process_lane_handler core ctx txs ≡ finished s
        → txs ≡ s.from_lane ++ s.remaining

  module _ (encode : Tx → Result String Bytes) where
    -- the proposal has grown by the encodings of the transactions
    abbrev pub Grows : Proposal → List Tx → Proposal → Type 0
    Grows p txs q = (bs : List Bytes) × AreEncodings encode txs bs × (q.txs ≡ p.txs ++ bs)

    pass_on-Grows :
        (lane : BaseLane Ctx LegacyDec M) (pool : M) (p q : Proposal) (s : Split Ctx)
        (next : ProcessLanesHandler Ctx)
        → lane.cfg.tx_encoder ≡ encode
        → ((ctx : Ctx) (p' : Proposal) (txs : List Tx)
            → next ctx p' txs ≡ finished q
            → Grows p' txs q)
        → (x : Result Failure Proposal) → add_to_proposal env lane pool s.from_lane p ≡ x
        → pass_on env next s x ≡ finished q
        → Grows p (s.from_lane ++ s.remaining) q
    unfolding pass_on
    pass_on-Grows lane pool p q s next same rest (err e) h done = absurd (failed-finished e q done)
    pass_on-Grows lane pool p q s next same rest (ok p') h done =
        let (infos, known, updated) = add_to_proposal-eq-ok env lane pool s.from_lane p h in
        let own = get_tx_infos-AreInfos env (core_of lane pool) s.from_lane known in
        let encoded = AreInfos-AreEncodings (core_of lane pool) s.from_lane infos own in
        let (bs, more, e) = rest s.ctx p' s.remaining done in
        (
          bytes_of infos ++ bs,
          AreEncodings-append encode s.from_lane s.remaining (bytes_of infos) bs
              (subst (λ enc. AreEncodings enc s.from_lane (bytes_of infos)) same encoded) more,
          e
              ∙ ap (λ l. l ++ bs) (update_proposal_txs (info_of lane) infos p p' updated)
              ∙ append_assoc p.txs (bytes_of infos) bs,
        )

    finish_process-Grows :
        (lane : BaseLane Ctx LegacyDec M) (pool : M) (p q : Proposal) (txs : List Tx)
        (next : ProcessLanesHandler Ctx)
        → lane.cfg.tx_encoder ≡ encode
        → ((ctx : Ctx) (p' : Proposal) (rest : List Tx)
            → next ctx p' rest ≡ finished q
            → Grows p' rest q)
        → (x : Outcome (Split Ctx))
        → ((s : Split Ctx) → x ≡ finished s → txs ≡ s.from_lane ++ s.remaining)
        → finish_process env lane pool next p x ≡ finished q
        → Grows p txs q
    unfolding finish_process
    finish_process-Grows lane pool p q txs next same rest panicked splits done =
        absurd (panicked-finished q done)
    finish_process-Grows lane pool p q txs next same rest (failed e) splits done =
        absurd (failed-finished e q done)
    finish_process-Grows lane pool p q txs next same rest (finished s) splits done =
        subst (λ l. Grows p l q) (sym (splits s refl))
          (pass_on-Grows lane pool p q s next same rest _ refl done)

    run_process-Grows :
        (lanes : List (Lane Ctx LegacyDec M)) (pools : String → M) (ctx : Ctx) (p q : Proposal)
        (txs : List Tx)
        → AllLanes (IsSplitting encode) lanes
        → run_process env lanes pools ctx p txs ≡ finished q
        → Grows p txs q
    unfolding run_process process_lane AreEncodings
    run_process-Grows [] pools ctx p q txs good done = absurd (panicked-finished q done)
    run_process-Grows (terminator ∷ lanes) pools ctx p q [] good done =
        let e : p ≡ q = ground arith in
        ([], tt, ap (λ (r : Proposal). r.txs) (sym e) ∙ sym (append-nil p.txs))
    run_process-Grows (terminator ∷ lanes) pools ctx p q (tx ∷ txs) good done =
        absurd (failed-finished _ q done)
    run_process-Grows (base lane ∷ lanes) pools ctx p q [] good done =
        run_process-Grows lanes pools ctx p q [] good.1 done
    run_process-Grows (base lane ∷ lanes) pools ctx p q (tx ∷ txs) good done =
        finish_process-Grows lane (pools lane.lane_name) p q (tx ∷ txs)
          (run_process env lanes pools) good.0.encoder
          (λ c p' rest. run_process-Grows lanes pools c p' q rest good.1) _
          (λ s. good.0.splits (core_of lane (pools lane.lane_name)) ctx (tx ∷ txs) s) done

    -- If every lane of the registry encodes as the application does and has a handler that splits
    -- the transactions it is given in two, then a proposal that the chain accepts is included in
    -- full: the transactions of the result are those of the given proposal, followed by the
    -- encodings of all the transactions of the block, in their order.
    pub chain_process_lanes-Grows :
        (chain : List (Lane Ctx LegacyDec M)) (pools : String → M) (ctx : Ctx) (p q : Proposal)
        (txs : List Tx)
        → AllLanes (IsSplitting encode) chain
        → chain_process_lanes env chain pools ctx p txs ≡ finished q
        → Grows p txs q
    unfolding chain_process_lanes
    chain_process_lanes-Grows chain pools ctx p q txs good done =
        run_process-Grows (terminated chain) pools ctx p q txs
          (AllLanes-terminated (IsSplitting encode) chain good) done

  split_of-splits :
      (core : LaneCore Ctx LegacyDec M) (ctx : Ctx) (txs : List Tx) (s : Split Ctx)
      (x : Result LaneError (List Tx × List Tx × Ctx))
      → default_process_lane_handler env core ctx txs ≡ x
      → split_of env x ≡ finished s
      → txs ≡ s.from_lane ++ s.remaining
  unfolding split_of
  split_of-splits core ctx txs s (err e) h done = absurd (failed-finished _ s done)
  split_of-splits core ctx txs s (ok (own, rest, c')) h done =
      let (e, _) = (default_process_lane_handler_iff env core ctx txs own rest c').0 h in
      let same : record { from_lane = own; remaining = rest; ctx = c' } ≡ s = ground arith in
      e ∙ ap (λ (t : Split Ctx). t.from_lane ++ t.remaining) same

  -- A lane with the default handler splits what it is given in two.
  pub default_process-IsSplitting :
      (encode : Tx → Result String Bytes) (lane : BaseLane Ctx LegacyDec M)
      → lane.cfg.tx_encoder ≡ encode
      → lane.process_lane_handler ≡ default_process env
      → IsSplitting encode lane
  unfolding default_process
  default_process-IsSplitting encode lane same default = record {
    encoder = same;
    splits = λ core ctx txs s h.
        split_of-splits core ctx txs s _ refl (subst (λ f. f core ctx txs ≡ finished s) default h);
  }

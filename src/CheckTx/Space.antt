-- ===== src/CheckTx/Space.antt =====
-- abci/checktx/mempool_parity_check_tx.go: new transactions, and the size of a lane.
use block_sdk.Prelude.{
  ℕ, ◌≤◌, ◌≡◌, refl, ap, ◌∙◌, subst, Bool, true, false, ◌&&◌, Bool-cases, inl, inr, Option, some,
  List, pos, ◌≤ℤ◌, length, ok, arith,
}
use block_sdk.Decimal.{DecLaws}
use block_sdk.Sdk.{Tx}
use block_sdk.Base.{Env}
use block_sdk.Base.Lane.{BaseLane}
use block_sdk.CheckTx.{
  RequestCheckTx, ResponseCheckTx, CheckError, CheckOutcome, returned, check_panic, CheckState,
  CheckTx, CheckHost, CheckLaws, is_recheck, is_invalid_check_tx_execution, get_context_for_tx,
}
use block_sdk.CheckTx.Parity.{match_lane, clean_up, lane_size, after_handler, parity_check_tx}
use block_sdk.CheckTx.Eviction.{
  FinishRun, refused, passed, finish_check-FinishRun, parity_check_tx_new, parity_check_tx_passes,
}

module _ {Ctx LegacyDec M A : Type 0} (env : Env Ctx LegacyDec M) (host : CheckHost Ctx A)
    (registry : List (BaseLane Ctx LegacyDec M)) where
  no_purge :
      (remove : Bool) (tx : Tx) (s : CheckState A M)
      → clean_up env host registry (remove && false) tx s ≡ s
  unfolding clean_up
  no_purge true tx s = refl
  no_purge false tx s = refl

  after_handler_new :
      (req : RequestCheckTx) (tx : Tx) (x : CheckOutcome × CheckState A M)
      → (after_handler env host registry req tx false x).1 ≡ x.1
  unfolding after_handler
  after_handler_new req tx (check_panic, s) = refl
  after_handler_new req tx (returned res e, s) =
      by_run (finish_check-FinishRun env host registry req tx false res e s)
    where
      by_run :
          {r : CheckOutcome × CheckState A M}
          → FinishRun env host registry req tx false res e s r
          → r.1 ≡ s
      by_run (refused why r) =
          ap (λ (y : CheckOutcome × CheckState A M). y.1) r ∙ no_purge false tx s
      by_run (passed lane matched fits r) =
          ap (λ (y : CheckOutcome × CheckState A M). y.1) r
          ∙ no_purge (is_invalid_check_tx_execution res e) tx s

  -- Where the request is not a recheck, the handler leaves the state that the wrapped one has left,
  -- also where it then refuses the transaction: one that the wrapped handler has inserted stays in
  -- the mempool of the application.
  pub parity_check_tx_new_state :
      (check_tx_handler : CheckTx A M) (req : RequestCheckTx) (s : CheckState A M) (tx : Tx)
      → host.tx_decoder req.tx_bytes ≡ ok tx
      → is_recheck req ≡ false
      → (parity_check_tx env host registry check_tx_handler req s).1 ≡ (check_tx_handler req s).1
  parity_check_tx_new_state check_tx_handler req s tx decoded fresh =
      ap (λ (y : CheckOutcome × CheckState A M). y.1)
        (parity_check_tx_new env host registry check_tx_handler req s tx decoded fresh)
      ∙ after_handler_new req tx (check_tx_handler req s)

  lane_size_zero :
      (laws : DecLaws env.ops) (ctx : Ctx) (lane : BaseLane Ctx LegacyDec M) (n : ℕ)
      → laws.units lane.cfg.max_block_space ≡ pos 0
      → (host.block_params ctx).max_bytes ≡ pos n
      → lane_size env host registry ctx lane ≡ pos 0
  unfolding lane_size
  lane_size_zero laws ctx lane n free limit =
      ap (env.ops.mul_int64 lane.cfg.max_block_space) limit
      ∙ laws.mul_int64_lem lane.cfg.max_block_space 0 n free
      ∙ ap pos (omega arith)

  -- In a lane whose share of the block is zero, which means no limit elsewhere, the handler never
  -- accepts a transaction that is not empty, whatever the wrapped handler answers.
  pub zero_space_refuses :
      (laws : DecLaws env.ops) (host_laws : CheckLaws host) (check_tx_handler : CheckTx A M)
      (req : RequestCheckTx) (s s' : CheckState A M) (res : Option ResponseCheckTx)
      (e : Option CheckError) (tx : Tx) (lane : BaseLane Ctx LegacyDec M) (n : ℕ)
      → host.tx_decoder req.tx_bytes ≡ ok tx
      → 1 ≤ length req.tx_bytes
      → match_lane registry (get_context_for_tx host s'.app req) tx ≡ some lane
      → laws.units lane.cfg.max_block_space ≡ pos 0
      → (host.block_params (get_context_for_tx host s'.app req)).max_bytes ≡ pos n
      → parity_check_tx env host registry check_tx_handler req s ≡ (returned res e, s')
      → is_invalid_check_tx_execution res e ≡ true
  zero_space_refuses laws host_laws check_tx_handler req s s' res e tx lane n decoded nonempty
        matched free limit h =
      elim (Bool-cases (is_invalid_check_tx_execution res e)) [
        | inl invalid ↦ invalid
        | inr valid ↦
            let (same, held, room) =
              parity_check_tx_passes env host registry host_laws check_tx_handler req s s' res e tx
                decoded h valid in
            let (found, matched', fits) = room in
            let one : found ≡ lane = ground (arith, matched, matched') in
            let fits' =
              subst
                (λ l.
                  pos (length req.tx_bytes)
                  ≤ℤ lane_size env host registry (get_context_for_tx host s'.app req) l)
                one fits in
            let size = lane_size_zero laws (get_context_for_tx host s'.app req) lane n free limit in
            absurd (ground (arith, fits', size))
      ]

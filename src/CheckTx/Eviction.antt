-- ===== src/CheckTx/Eviction.antt =====
-- abci/checktx/mempool_parity_check_tx.go: what the handler leaves of the mempool of the application.
use block_sdk.Prelude.{
  ◌≡◌, ◌≢◌, refl, sym, ap, ◌∙◌, subst, Bool, true, false, ◌&&◌, Bool-cases, Option-cases, inl, inr,
  Option, none, some, List, [], pos, ◌≤ℤ◌, leb_ℤ, length, ok, arith,
}
use block_sdk.Decimal.{DecLaws}
use block_sdk.Sdk.{Tx}
use block_sdk.Base.{Env}
use block_sdk.Base.Lane.{BaseLane}
use block_sdk.Mempool.{contains_tx}
use block_sdk.Mempool.Registry.{HaveNewNames}
use block_sdk.Mempool.Removal.{IsRemoving, IsHeldOnce, remove_tx-IsRemoved}
use block_sdk.CheckTx.{
  RequestCheckTx, ResponseCheckTx, CheckError, no_lane, not_in_mempool, tx_too_large, CheckOutcome,
  returned, check_panic, CheckState, CheckTx, CheckHost, CheckLaws, is_recheck,
  is_invalid_check_tx_execution, get_context_for_tx,
}
use block_sdk.CheckTx.Parity.{
  match_lane, reject, clean_up, lane_size, finish_check, after_handler, parity_check_tx,
}

-- The handler's own responses are failures.
pub error_invalid :
    {Ctx A : Type 0} (host : CheckHost Ctx A)
    → CheckLaws host
    → (e : CheckError)
    → is_invalid_check_tx_execution (some (host.response_with_events e 0 0)) none ≡ true
unfolding is_invalid_check_tx_execution
error_invalid host laws e = ground (arith, laws.error_code e 0 0)

-- The response has a failing code, or there is an error or no response.
abbrev pub refuses : CheckOutcome → Bool
refuses check_panic = false
refuses (returned res e) = is_invalid_check_tx_execution res e

module _ {Ctx LegacyDec M A : Type 0} (env : Env Ctx LegacyDec M) (host : CheckHost Ctx A)
    (registry : List (BaseLane Ctx LegacyDec M)) where
  -- How the handler ends after the wrapped one has returned: it refuses the transaction, or it found
  -- a lane with the room for it.
  pub data FinishRun (req : RequestCheckTx) (tx : Tx) (purge : Bool) (res : Option ResponseCheckTx)
      (e : Option CheckError) (s : CheckState A M) (r : CheckOutcome × CheckState A M)
      : Type 0 where
    refused :
        (why : CheckError)
        → r ≡ (reject env host registry why, clean_up env host registry purge tx s)
        → FinishRun req tx purge res e s r
    passed :
        (lane : BaseLane Ctx LegacyDec M)
        → match_lane registry (get_context_for_tx host s.app req) tx ≡ some lane
        → pos (length req.tx_bytes)
          ≤ℤ lane_size env host registry (get_context_for_tx host s.app req) lane
        → r ≡ (
          returned res e,
          clean_up env host registry (is_invalid_check_tx_execution res e && purge) tx s,
        )
        → FinishRun req tx purge res e s r

  pub finish_check-FinishRun :
      (req : RequestCheckTx) (tx : Tx) (purge : Bool) (res : Option ResponseCheckTx)
      (e : Option CheckError) (s : CheckState A M)
      → FinishRun req tx purge res e s (finish_check env host registry req tx purge res e s)
  unfolding finish_check
  finish_check-FinishRun req tx purge res e s =
      let ctx = get_context_for_tx host s.app req in
      elim (Option-cases (match_lane registry ctx tx)) [
        | inl unmatched ↦ refused no_lane (rw (unmatched, finish_check))
        | inr (lane, matched) ↦
            elim (Bool-cases
              (leb_ℤ (pos (length req.tx_bytes)) (lane_size env host registry ctx lane))) [
                | inl fits ↦
                    passed lane matched (ground (arith, fits)) (rw (matched, finish_check, fits))
                | inr exceeds ↦
                    refused (tx_too_large lane.lane_name) (rw (matched, finish_check, exceeds))
              ]
      ]

  module _ (check_tx_handler : CheckTx A M) (req : RequestCheckTx) (s : CheckState A M) (tx : Tx)
      (decoded : host.tx_decoder req.tx_bytes ≡ ok tx) where
    parity_check_tx_missing :
        is_recheck req ≡ true
        → contains_tx env registry s.pools tx ≡ false
        → parity_check_tx env host registry check_tx_handler req s
          ≡ (reject env host registry not_in_mempool, s)
    unfolding parity_check_tx
    parity_check_tx_missing recheck missing = rw (decoded, parity_check_tx, recheck, missing)

    parity_check_tx_held :
        is_recheck req ≡ true
        → contains_tx env registry s.pools tx ≡ true
        → parity_check_tx env host registry check_tx_handler req s
          ≡ after_handler env host registry req tx true (check_tx_handler req s)
    unfolding parity_check_tx
    parity_check_tx_held recheck held = rw (decoded, parity_check_tx, recheck, held)

    pub parity_check_tx_new :
        is_recheck req ≡ false
        → parity_check_tx env host registry check_tx_handler req s
          ≡ after_handler env host registry req tx false (check_tx_handler req s)
    unfolding parity_check_tx
    parity_check_tx_new fresh = rw (decoded, parity_check_tx, fresh)

  module _ (laws : DecLaws env.ops) (tx : Tx) (removing : IsRemoving env laws tx)
      (named : HaveNewNames env laws [] registry) where
    clean_up_gone :
        (s : CheckState A M)
        → IsHeldOnce env laws registry s.pools tx
        → contains_tx env registry (clean_up env host registry true tx s).pools tx ≡ false
    unfolding clean_up
    clean_up_gone s once =
        let r = remove_tx-IsRemoved env laws registry [] s.pools tx named removing once in
        rw (r.removed, clean_up, r.gone)

    -- A result that is a refusal leaves a state without the transaction.
    abbrev Evicts : CheckOutcome × CheckState A M → Type 0
    Evicts r = refuses r.0 ≡ true → contains_tx env registry r.1.pools tx ≡ false

    after_handler-Evicts :
        (req : RequestCheckTx) (x : CheckOutcome × CheckState A M)
        → IsHeldOnce env laws registry x.1.pools tx
        → Evicts (after_handler env host registry req tx true x)
    unfolding after_handler
    after_handler-Evicts req (check_panic, s) once = λ h. cc
    after_handler-Evicts req (returned res e, s) once =
        by_run (finish_check-FinishRun req tx true res e s)
      where
        by_run : {r : CheckOutcome × CheckState A M} → FinishRun req tx true res e s r → Evicts r
        by_run (refused why r) = subst Evicts (sym r) (λ h. clean_up_gone s once)
        by_run (passed lane matched fits r) =
            subst Evicts (sym r) (λ invalid. rw (invalid, clean_up_gone s once))

    -- For a registry of lanes with different names, a mempool whose `Remove` removes what it
    -- contains, and a wrapped handler that leaves the transaction in at most one lane: where the
    -- handler answers the recheck of a transaction with a failing code, an error or no response, the
    -- mempool of the application does not contain the transaction afterwards.
    pub parity_check_tx_evicts :
        (check_tx_handler : CheckTx A M) (req : RequestCheckTx) (s : CheckState A M)
        → host.tx_decoder req.tx_bytes ≡ ok tx
        → is_recheck req ≡ true
        → IsHeldOnce env laws registry (check_tx_handler req s).1.pools tx
        → refuses (parity_check_tx env host registry check_tx_handler req s).0 ≡ true
        → contains_tx env registry
            (parity_check_tx env host registry check_tx_handler req s).1.pools
            tx
          ≡ false
    parity_check_tx_evicts check_tx_handler req s decoded recheck once =
        elim (Bool-cases (contains_tx env registry s.pools tx)) [
          | inl held ↦
              subst Evicts
                (sym (parity_check_tx_held check_tx_handler req s tx decoded recheck held))
                (after_handler-Evicts req (check_tx_handler req s) once)
          | inr missing ↦
              subst Evicts
                (sym (parity_check_tx_missing check_tx_handler req s tx decoded recheck missing))
                (λ h. missing)
        ]

  -- The transaction has a lane with room for its bytes.
  abbrev pub HasRoom : RequestCheckTx → Tx → CheckState A M → Type 0
  HasRoom req tx s =
      (lane : BaseLane Ctx LegacyDec M) × (match_lane registry (get_context_for_tx host s.app req)
          tx
        ≡ some lane)
      × (pos (length req.tx_bytes)
          ≤ℤ lane_size env host registry (get_context_for_tx host s.app req) lane)

  module _ (host_laws : CheckLaws host) where
    refused_result :
        (why : CheckError) (s₁ : CheckState A M) {r : CheckOutcome × CheckState A M}
        → ◌≡◌ {A = CheckOutcome × CheckState A M} (reject env host registry why, s₁) r
        → refuses r.0 ≡ true
    refused_result why s₁ e =
        subst (λ (r : CheckOutcome × CheckState A M). refuses r.0 ≡ true) e
          (error_invalid host host_laws why)

    panic_apart :
        (res : Option ResponseCheckTx) (e : Option CheckError) → check_panic ≢ returned res e
    panic_apart res e h = cc

    no_removal :
        (remove purge : Bool) (tx : Tx) (s : CheckState A M)
        → remove ≡ false
        → clean_up env host registry (remove && purge) tx s ≡ s
    unfolding clean_up
    no_removal true purge tx s h = cc
    no_removal false purge tx s h = refl

    after_handler_passes :
        (req : RequestCheckTx) (tx : Tx) (purge : Bool) (x : CheckOutcome × CheckState A M)
        (res : Option ResponseCheckTx) (e : Option CheckError) (s' : CheckState A M)
        → after_handler env host registry req tx purge x ≡ (returned res e, s')
        → is_invalid_check_tx_execution res e ≡ false
        → (x ≡ (returned res e, s')) × HasRoom req tx s'
    unfolding after_handler clean_up
    after_handler_passes req tx purge (check_panic, s) res e s' h valid =
        absurd (panic_apart res e (ap (λ (y : CheckOutcome × CheckState A M). y.0) h))
    after_handler_passes req tx purge (returned res₁ e₁, s) res e s' h valid =
        by_run (finish_check-FinishRun req tx purge res₁ e₁ s)
      where
        by_run :
            FinishRun req tx purge res₁ e₁ s (finish_check env host registry req tx purge res₁ e₁ s)
            → (◌≡◌ {A = CheckOutcome × CheckState A M} (returned res₁ e₁, s) (returned res e, s'))
              × HasRoom req tx s'
        by_run (refused why r) = absurd (ground (arith, refused_result why _ (sym r ∙ h)))
        by_run (passed lane matched fits r) =
            let same = sym r ∙ h in
            let accepted : is_invalid_check_tx_execution res₁ e₁ ≡ false =
              ap (λ (y : CheckOutcome × CheckState A M). refuses y.0) same ∙ valid in
            let kept = no_removal (is_invalid_check_tx_execution res₁ e₁) purge tx s accepted in
            let result : ◌≡◌ {A = CheckOutcome × CheckState A M} (returned res₁ e₁, s)
                (returned res e, s') =
              ap (λ (t : CheckState A M). (returned res₁ e₁, t)) (sym kept) ∙ same in
            let state = ap (λ (y : CheckOutcome × CheckState A M). y.1) result in
            (result, subst (HasRoom req tx) state (lane, matched, fits))

    -- A transaction that the handler does not refuse is one that the wrapped handler has just
    -- accepted, with this response and this state; a lane matches it and has room for its bytes; and
    -- on a recheck the mempool of the application contained it before.
    pub parity_check_tx_passes :
        (check_tx_handler : CheckTx A M) (req : RequestCheckTx) (s s' : CheckState A M)
        (res : Option ResponseCheckTx) (e : Option CheckError) (tx : Tx)
        → host.tx_decoder req.tx_bytes ≡ ok tx
        → parity_check_tx env host registry check_tx_handler req s ≡ (returned res e, s')
        → is_invalid_check_tx_execution res e ≡ false
        → (check_tx_handler req s ≡ (returned res e, s'))
          × (is_recheck req ≡ true → contains_tx env registry s.pools tx ≡ true)
          × HasRoom req tx s'
    parity_check_tx_passes check_tx_handler req s s' res e tx decoded h valid =
        elim (Bool-cases (is_recheck req)) [
          | inl recheck ↦ elim (Bool-cases (contains_tx env registry s.pools tx)) [
            | inl held ↦
                let run = parity_check_tx_held check_tx_handler req s tx decoded recheck held in
                let (same, room) =
                  after_handler_passes req tx true (check_tx_handler req s) res e s' (sym run ∙ h)
                    valid in
                (same, λ r. held, room)
            | inr missing ↦
                let run =
                  parity_check_tx_missing check_tx_handler req s tx decoded recheck missing in
                absurd (ground (arith, refused_result not_in_mempool s (sym run ∙ h)))
          ]
          | inr fresh ↦
              let run = parity_check_tx_new check_tx_handler req s tx decoded fresh in
              let (same, room) =
                after_handler_passes req tx false (check_tx_handler req s) res e s' (sym run ∙ h)
                  valid in
              (same, λ r. absurd (ground arith), room)
        ]

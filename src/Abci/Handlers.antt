-- ===== src/Abci/Handlers.antt =====
-- abci/abci.go: a proposal of `PrepareProposalHandler` passes `ProcessProposalHandler`.
use block_sdk.Prelude.{
  Bool-cases, inl, inr, ℕ, ◌^◌, ◌≤◌, ◌<◌, ◌≡◌, ◌≢◌, refl, sym, ap, ◌∙◌, subst, String, true, false,
  List, [], ◌∷◌, ℤ, pos, leb_ℤ, Result, ok, arith,
}
use block_sdk.Decimal.{DecLaws}
use block_sdk.Proposals.{
  Bytes, Proposal, BlockParams, get_block_limits, new_proposal, new_proposal_with_context,
}
use block_sdk.Proposals.Room.{with_max, update_proposal-with_max}
use block_sdk.Sdk.{Tx}
use block_sdk.Base.{Env}
use block_sdk.Base.Lane.{finished, BaseLane, Lane, World, Reaped, info_of, add_to_proposal}
use block_sdk.Abci.{
  terminated, chain_prepare_lanes, chain_process_lanes, get_decoded_txs, prepare_proposal_handler,
  process_proposal_handler,
}
use block_sdk.Abci.Chain.{AllLanes, Reaps}
use block_sdk.Abci.Coherent.{IsCoherent, AreApart, AreApart-terminated, run_prepare-Replays}
use block_sdk.Abci.Default.{IsDefault, IsValidFor, keep-IsValidFor}
use block_sdk.Abci.Prepare.{
  terminated-IsTerminated, AllLanes-terminated, add_to_proposal-eq-ok, get_tx_infos_pool,
}
use block_sdk.Abci.Process.{AreEncodings, chain_process_lanes-Grows}
use block_sdk.Abci.Replay.{AllLanes-IsSplitting}

-- The decoder reads what the encoder writes.
abbrev pub Inverts : (Bytes → Result String Tx) → (Tx → Result String Bytes) → Type 0
Inverts decoder encode = (tx : Tx) (bytes : Bytes) → encode tx ≡ ok bytes → decoder bytes ≡ ok tx

get_decoded_txs_encodings :
    {Ctx LegacyDec M : Type 0} (env : Env Ctx LegacyDec M) (encode : Tx → Result String Bytes)
    (decoder : Bytes → Result String Tx)
    → Inverts decoder encode
    → (txs : List Tx) (bs : List Bytes) → AreEncodings encode txs bs
    → get_decoded_txs env decoder bs ≡ ok txs
unfolding get_decoded_txs AreEncodings
get_decoded_txs_encodings env encode decoder inverts [] [] h = refl
get_decoded_txs_encodings env encode decoder inverts [] (b ∷ bs) h = absurd h
get_decoded_txs_encodings env encode decoder inverts (tx ∷ txs) [] h = absurd h
get_decoded_txs_encodings env encode decoder inverts (tx ∷ txs) (b ∷ bs) h =
    rw (inverts tx b h.0, get_decoded_txs_encodings env encode decoder inverts txs bs h.1)

new_proposal_with_context_limits :
    (block : BlockParams) (size : ℤ) (gas : ℕ)
    → get_block_limits block ≡ (size, gas)
    → new_proposal_with_context block ≡ new_proposal size gas
unfolding new_proposal_with_context
new_proposal_with_context_limits block size gas limits =
    ap (λ (l : ℤ × ℕ). new_proposal l.0 l.1) limits

module _ {Ctx LegacyDec M : Type 0} (env : Env Ctx LegacyDec M) (laws : DecLaws env.ops)
    (Owns : BaseLane Ctx LegacyDec M → Tx → Type 0) (encode : Tx → Result String Bytes) (m n g : ℕ)
    (small : m < 2 ^ 62) (roomy : n < 2 ^ 63) (gas_small : g < 2 ^ 63) (le : m ≤ n) where
  -- the same proposal in a block of `n` bytes
  abbrev HasRoom : Proposal → Proposal → Type 0
  HasRoom p q = IsValidFor env laws m g p × (q ≡ with_max p n)

  room :
      (lane : BaseLane Ctx LegacyDec M) (w : World Ctx M) (reaped : Reaped Ctx) (pool : M)
      (p p' roomier : Proposal)
      → IsDefault env laws lane
      → HasRoom p roomier
      → Reaps env lane w p reaped
      → add_to_proposal env lane pool reaped.to_include p ≡ ok p'
      → (roomier' : Proposal) × ((other : M)
          → add_to_proposal env lane other reaped.to_include roomier ≡ ok roomier')
        × HasRoom p' roomier'
  unfolding add_to_proposal
  room lane w reaped pool p p' roomier d (valid, same) reaps added =
      let (infos, known, updated) = add_to_proposal-eq-ok env lane pool reaped.to_include p added in
      let larger =
        update_proposal-with_max env.ops laws (info_of lane) infos p p' m n d.share valid.0 valid.1
          le roomy d.share_units updated in
      (
        with_max p' n,
        λ other. rw (same, get_tx_infos_pool env lane other pool reaped.to_include, known, larger),
        (
          keep-IsValidFor env laws m g small gas_small lane w reaped pool p p' d reaps added valid,
          refl,
        ),
      )

  new_proposal-IsValidFor : IsValidFor env laws m g (new_proposal (pos m) g)
  unfolding new_proposal
  new_proposal-IsValidFor = (
    record { sized = refl; counted = refl; bytes_within = omega arith; gas_within = omega arith },
    refl,
    refl,
  )

  -- the verification of what the chain builds, from the proposal of the verifier
  record IsAccepted (chain : List (Lane Ctx LegacyDec M)) (w : World Ctx M) : Type 0 where
    built : Proposal
    finishes : (chain_prepare_lanes env chain w (new_proposal (pos m) g)).outcome ≡ finished built
    txs : List Tx
    encodings : AreEncodings encode txs built.txs
    accepted :
        (pools : String → M)
        → chain_process_lanes env chain pools w.ctx (new_proposal (pos n) g) txs
          ≡ finished (with_max built n)

  chain-IsAccepted :
      (chain : List (Lane Ctx LegacyDec M)) (w : World Ctx M)
      → chain ≢ []
      → AllLanes (IsDefault env laws) chain
      → AllLanes (IsCoherent env Owns encode) chain
      → AreApart env Owns encode chain
      → IsAccepted chain w
  unfolding chain_prepare_lanes chain_process_lanes new_proposal
  chain-IsAccepted chain w nonempty defaults coherent apart =
      let r =
        run_prepare-Replays env Owns encode (IsDefault env laws) HasRoom room (terminated chain) w
          (new_proposal (pos m) g) (new_proposal (pos n) g) (terminated-IsTerminated chain nonempty)
          (AllLanes-terminated (IsCoherent env Owns encode) chain coherent)
          (AllLanes-terminated (IsDefault env laws) chain defaults)
          (AreApart-terminated env Owns encode chain apart) (new_proposal-IsValidFor, refl) in
      let accepted = λ (pools : String → M). r.accepted pools ∙ ap finished r.has_room.1 in
      let (bs, encodings, e) =
        chain_process_lanes-Grows env encode chain w.pools w.ctx (new_proposal (pos n) g)
          (with_max r.built n) r.txs (AllLanes-IsSplitting env Owns encode chain coherent)
          (accepted w.pools) in
      record {
        built = r.built;
        finishes = r.finishes;
        txs = r.txs;
        encodings = subst (AreEncodings encode r.txs) (sym e) encodings;
        accepted = accepted;
      }

  -- Take an application whose registry has at least one lane, whose lanes have the default handler
  -- for proposals and a share between 0 and 1, keep the contract of `IsCoherent` and own transactions
  -- that do not match an earlier lane; a decoder that reads what the encoder writes; and a block
  -- limit of `n` bytes below 2 ^ 63 and `g` gas below 2 ^ 63, so not a block without a gas limit,
  -- with `m`, the `MaxTxBytes` of the request, below 2 ^ 62 and at most `n`. At any height `PrepareProposalHandler` returns no error, and a validator with the same committed state
  -- and its own mempools accepts with `ProcessProposalHandler` what it returns.
  pub process_proposal_handler-prepare_proposal_handler :
      (chain : List (Lane Ctx LegacyDec M)) (params : Ctx → BlockParams)
      (decoder : Bytes → Result String Tx) (height : ℤ) (requested : List Bytes) (w : World Ctx M)
      (pools : String → M)
      → chain ≢ []
      → AllLanes (IsDefault env laws) chain
      → AllLanes (IsCoherent env Owns encode) chain
      → AreApart env Owns encode chain
      → Inverts decoder encode
      → get_block_limits (params w.ctx) ≡ (pos n, g)
      → ((prepare_proposal_handler env chain params height (pos m) requested w).1 ≡ false)
        × (process_proposal_handler env true chain params decoder height
              (prepare_proposal_handler env chain params height (pos m) requested w).0
              (record { ctx = w.ctx; pools = pools })
            ≡ true)
  unfolding prepare_proposal_handler process_proposal_handler
  process_proposal_handler-prepare_proposal_handler chain params decoder height requested w pools
        nonempty defaults coherent apart inverts limits =
      let a = chain-IsAccepted chain w nonempty defaults coherent apart in
      let decoded =
        get_decoded_txs_encodings env encode decoder inverts a.txs a.built.txs a.encodings in
      let started = new_proposal_with_context_limits (params w.ctx) (pos n) g limits in
      elim (Bool-cases (leb_ℤ height (pos 1))) [
        | inl early ↦ (rw (early), rw (early))
        | inr late ↦ (
          rw (late, ap (λ (l : ℤ × ℕ). l.1) limits, a.finishes),
          rw (late, ap (λ (l : ℤ × ℕ). l.1) limits, a.finishes, decoded, started, a.accepted pools),
        )
      ]

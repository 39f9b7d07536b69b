-- ===== src/Mev/RoundTrip.antt =====
-- lanes/mev/abci.go: the `ProcessLaneHandler` of the auction lane on what its `PrepareLaneHandler`
-- selects.
use block_sdk.Prelude.{
  ℕ, ◌≤◌, ◌≡◌, inl, inr, refl, sym, ap, ◌∙◌, subst, true, ==_iff, List, [], ◌∷◌, ◌++◌, leb, length,
  length-append, take, drop, take-append, drop-append, All, ok, >>=-eq-ok, map_err, map_err-eq-ok,
  arith,
}
use block_sdk.Proposals.{Bytes, Proposal, LaneLimits, TxWithInfo}
use block_sdk.Sdk.{Tx}
use block_sdk.Base.{Env, LaneCore, encode_failed, get_tx_info}
use block_sdk.Base.Acceptance.{IsForeign, IsForeign-verify_no_matches}
use block_sdk.Base.Lane.{finished, Reaped, split_of}
use block_sdk.Base.Selection.{AreInfos}
use block_sdk.Mev.{Factory}
use block_sdk.Mev.Proposal.{
  bytes_eq, match_bundle, process_bid, pass_by, process_auction, mev_prepare_lane_handler,
  mev_process_lane_handler,
}
use block_sdk.Mev.Verifier.{elsewhere, process_auction-elsewhere}
use block_sdk.Mev.Selected.{Wrapped, IsSelectedBid}
use block_sdk.Mev.First.{IsFirstValid, mev_prepare_lane_handler-IsFirstValid}

bytes_eq_self : (bz : Bytes) → bytes_eq bz bz ≡ true
unfolding bytes_eq
bytes_eq_self [] = refl
bytes_eq_self (b ∷ bz) = rw ((==_iff b b).1 refl, bytes_eq_self bz) refl

finished_eq : {A : Type 0} (a b : A) → finished a ≡ finished b → a ≡ b
finished_eq a b h = cc

module _ {Ctx LegacyDec M : Type 0} (env : Env Ctx LegacyDec M) (factory : Factory)
    (lane : LaneCore Ctx LegacyDec M) where
  get_tx_info_encodes :
      (tx : Tx) (info : TxWithInfo)
      → get_tx_info env lane tx ≡ ok info
      → (bz : Bytes) × (lane.cfg.tx_encoder tx ≡ ok bz)
  unfolding get_tx_info
  get_tx_info_encodes tx info h =
      let (bz, encoded, _) = >>=-eq-ok (map_err encode_failed (lane.cfg.tx_encoder tx)) _ h in
      (bz, map_err-eq-ok encode_failed (lane.cfg.tx_encoder tx) encoded)

  Wrapped-match_bundle :
      (bzs : List Bytes) (txs : List Tx) (infos : List TxWithInfo)
      → Wrapped env factory lane bzs txs
      → AreInfos env lane txs infos
      → match_bundle env factory lane bzs txs ≡ ok tt
  unfolding match_bundle AreInfos
  Wrapped-match_bundle [] txs infos w d = refl
  Wrapped-match_bundle (bz ∷ bzs) [] infos w d = absurd w
  Wrapped-match_bundle (bz ∷ bzs) (tx ∷ txs) [] w d = absurd d
  Wrapped-match_bundle (bz ∷ bzs) (tx ∷ txs) (info ∷ infos) w d =
      let (encoded, known) = get_tx_info_encodes tx info d.0 in
      rw (w.0, known, bytes_eq_self encoded) (Wrapped-match_bundle bzs txs infos w.1 d.1)

  Wrapped-length :
      (bzs : List Bytes) (txs : List Tx)
      → Wrapped env factory lane bzs txs
      → length txs ≡ length bzs
  Wrapped-length [] [] w = refl
  Wrapped-length [] (tx ∷ txs) w = absurd w
  Wrapped-length (bz ∷ bzs) [] w = absurd w
  Wrapped-length (bz ∷ bzs) (tx ∷ txs) w = omega (arith, Wrapped-length bzs txs w.1)

  enough : (n m : ℕ) → n ≤ m → leb n m ≡ true
  enough n m h = ground arith

  -- Two lists of which the first has the length `n`.
  split_at :
      (n : ℕ) (xs ys : List Tx)
      → length xs ≡ n
      → (leb n (length (xs ++ ys)) ≡ true) × (take n (xs ++ ys) ≡ xs) × (drop n (xs ++ ys) ≡ ys)
  split_at n xs ys e = (
    enough n (length (xs ++ ys)) (omega (arith, length-append xs ys)),
    subst (λ m. take m (xs ++ ys) ≡ xs) e (take-append xs ys),
    subst (λ m. drop m (xs ++ ys) ≡ ys) e (drop-append xs ys),
  )

  process_selected :
      (ctx : Ctx) (proposal : Proposal) (limit : LaneLimits) (bid : Tx) (included rest : List Tx)
      (c' : Ctx)
      → IsSelectedBid env factory lane ctx proposal limit bid included c'
      → process_auction env factory lane ctx (included ++ rest) ≡ ok (included, rest, c')
  unfolding process_auction process_bid AreInfos
  process_selected ctx proposal limit bid included rest c' s =
      let n = length s.info.transactions in
      let (room, front, back) =
        split_at n s.bundle rest (Wrapped-length s.info.transactions s.bundle s.wrapped) in
      let same =
        Wrapped-match_bundle s.info.transactions s.bundle s.bundle_infos s.wrapped s.described.1 in
      subst (λ own. process_auction env factory lane ctx (own ++ rest) ≡ ok (own, rest, c'))
        (sym s.in_order)
        (rw (s.matches, process_bid, s.known, room, front, back, same, s.verified) refl)

  pub process_others :
      (ctx : Ctx) (rest : List Tx)
      → All (IsForeign env lane ctx) rest
      → process_auction env factory lane ctx rest ≡ ok ([], rest, ctx)
  unfolding process_auction pass_by
  process_others ctx [] h = refl
  process_others ctx (tx ∷ txs) h =
      rw (h.0, pass_by, IsForeign-verify_no_matches env lane ctx txs h.1) refl

  process_first_valid :
      (ctx : Ctx) (proposal : Proposal) (limit : LaneLimits) (txs : List Tx) (r : Reaped Ctx)
      (rest : List Tx)
      → IsFirstValid env factory lane ctx proposal limit txs [] r
      → (r.to_include ≡ [] → All (IsForeign env lane ctx) rest)
      → process_auction env factory lane ctx (r.to_include ++ rest) ≡ ok (r.to_include, rest, r.ctx)
  process_first_valid ctx proposal limit txs r rest (inl (_, nothing, _, same)) foreign =
      rw (nothing, same) (process_others ctx rest (foreign nothing))
  process_first_valid ctx proposal limit txs r rest (inr (failed, bid, later, _, _, _, chosen))
        foreign =
      process_selected ctx proposal limit bid r.to_include rest r.ctx chosen

  -- What the `PrepareLaneHandler` of the auction lane includes, followed by any transactions, is
  -- accepted by the `ProcessLaneHandler` of the lane at any node, whatever bids its own mempool holds:
  -- it takes exactly what was included, hands on the others and leaves the same context. Where nothing
  -- was included, none of the others may match the lane.
  pub mev_process_lane_handler-mev_prepare_lane_handler :
      (ctx : Ctx) (proposal : Proposal) (limit : LaneLimits) (r : Reaped Ctx) (rest : List Tx)
      (other : M)
      → mev_prepare_lane_handler env factory lane ctx proposal limit ≡ finished r
      → (r.to_include ≡ [] → All (IsForeign env lane ctx) rest)
      → mev_process_lane_handler env factory
          (elsewhere env factory lane other)
          ctx
          (r.to_include ++ rest)
        ≡ finished (record { from_lane = r.to_include; remaining = rest; ctx = r.ctx })
  unfolding mev_process_lane_handler split_of
  mev_process_lane_handler-mev_prepare_lane_handler ctx proposal limit r rest other prepared
        foreign =
      let (r', selected, first) =
        mev_prepare_lane_handler-IsFirstValid env factory lane ctx proposal limit in
      let same : r' ≡ r = finished_eq r' r (sym selected ∙ prepared) in
      let first' =
        subst
          (IsFirstValid env factory lane ctx proposal limit (env.pool.select ctx lane.mempool) [])
          same first in
      ap (split_of env) (
        process_auction-elsewhere env factory lane other ctx (r.to_include ++ rest)
        ∙ process_first_valid ctx proposal limit _ r rest first' foreign)

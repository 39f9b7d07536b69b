-- ===== src/Mev/Accepted.antt =====
-- lanes/mev/abci.go: what the `ProcessLaneHandler` of the auction lane accepts.
use block_sdk.Prelude.{
  ℕ, zero, suc, ◌≤◌, ◌≡◌, ◌⊎◌, inl, inr, refl, sym, ap, ◌∙◌, subst, true, false, Bool-cases, List,
  [], ◌∷◌, ◌++◌, ◌==◌, ==_iff, &&-eq-true, leb, leb→le, length, take, drop, take-append-drop, All,
  Result, ok, >>=-eq-ok, guard-eq-ok, map_err, map_err-eq-ok, ok-injective, arith,
}
use block_sdk.Proposals.{Bytes}
use block_sdk.Sdk.{Tx}
use block_sdk.Base.{Env, LaneCore, LaneError, encode_failed, handler_failed, verify_no_matches}
use block_sdk.Base.Acceptance.{IsForeign, verify_no_matches-IsForeign}
use block_sdk.Auction.{BidInfo}
use block_sdk.Mev.{Factory}
use block_sdk.Mev.Proposal.{
  bytes_eq, get_bid_info, verify_bid_tx, match_bundle, process_bid, pass_by, process_auction,
}

pub bytes_eq-eq : (a b : Bytes) → bytes_eq a b ≡ true → a ≡ b
unfolding bytes_eq
bytes_eq-eq [] [] h = refl
bytes_eq-eq [] (b ∷ bs) h = cc
bytes_eq-eq (a ∷ cs) [] h = cc
bytes_eq-eq (a ∷ cs) (b ∷ bs) h =
    let (x, y) = &&-eq-true (a == b) (bytes_eq cs bs) h in
    let e : a ≡ b = ground (arith, ==_iff a b) in let es : cs ≡ bs = bytes_eq-eq cs bs y in cc

length-take : {A : Type 0} (n : ℕ) (xs : List A) → n ≤ length xs → length (take n xs) ≡ n
length-take zero xs h = refl
length-take (suc n) [] h = omega arith
length-take (suc n) (x ∷ xs) h = ap suc (length-take n xs (omega arith))

module _ {Ctx LegacyDec M : Type 0} (env : Env Ctx LegacyDec M) (factory : Factory)
    (lane : LaneCore Ctx LegacyDec M) where
  -- The transactions are, one by one, those of the bundle, by their encodings.
  unfoldable pub Includes : List Bytes → List Tx → Type 0
  Includes [] [] = Unit
  Includes (bz ∷ bzs) (tx ∷ txs) =
      (expected : Tx) × (factory.wrap_bundle_transaction bz ≡ ok expected)
      × (encoded : Bytes) × (lane.cfg.tx_encoder expected ≡ ok encoded)
      × (lane.cfg.tx_encoder tx ≡ ok encoded)
      × Includes bzs txs
  Includes _ _ = ⊥

  match_bundle-Includes :
      (bzs : List Bytes) (bundle : List Tx)
      → length bundle ≡ length bzs
      → match_bundle env factory lane bzs bundle ≡ ok tt
      → Includes bzs bundle
  unfolding match_bundle Includes
  match_bundle-Includes [] [] e h = tt
  match_bundle-Includes [] (tx ∷ bundle) e h = omega arith
  match_bundle-Includes (bz ∷ bzs) [] e h = omega arith
  match_bundle-Includes (bz ∷ bzs) (tx ∷ bundle) e h =
      let (expected, wrapped, h₁) =
        >>=-eq-ok (map_err handler_failed (factory.wrap_bundle_transaction bz)) _ h in
      let (b, encoded, h₂) =
        >>=-eq-ok (map_err encode_failed (lane.cfg.tx_encoder expected)) _ h₁ in
      let (b', actual, h₃) = >>=-eq-ok (map_err encode_failed (lane.cfg.tx_encoder tx)) _ h₂ in
      let (same, h₄) = guard-eq-ok (bytes_eq b' b) _ _ h₃ in
      (
        expected,
        map_err-eq-ok handler_failed (factory.wrap_bundle_transaction bz) wrapped,
        b,
        map_err-eq-ok encode_failed (lane.cfg.tx_encoder expected) encoded,
        map_err-eq-ok encode_failed (lane.cfg.tx_encoder tx) actual ∙ ap ok (bytes_eq-eq b' b same),
        match_bundle-Includes bzs bundle (omega arith) h₄,
      )

  -- A bid and its bundle: the bid matches the lane and has an info, whose transactions are those of
  -- the bundle, and `VerifyBidTx` succeeds and leaves the context.
  pub record IsBid (ctx : Ctx) (bid : Tx) (bundle : List Tx) (c' : Ctx) : Type 0 where
    pub matches : lane.match_handler ctx bid ≡ true
    pub info : BidInfo
    pub known : get_bid_info env factory lane bid ≡ ok info
    pub included : Includes info.transactions bundle
    pub verified : verify_bid_tx env factory lane ctx bid bundle ≡ ok c'

  -- Either nothing is taken and no transaction matches the lane, or a bid with its bundle is.
  abbrev pub Taken : Ctx → List Tx → List Tx → Ctx → Type 0
  Taken ctx own rest c' =
      ((own ≡ []) × All (IsForeign env lane ctx) rest × (ctx ≡ c'))
      ⊎ ((bid : Tx) × (bundle : List Tx) × (own ≡ bid ∷ bundle) × IsBid ctx bid bundle c')

  -- the results of a handler, as one equation
  by_parts :
      (P : List Tx → List Tx → Ctx → Type 0) (own rest own' rest' : List Tx) (c c' : Ctx)
      → P own rest c
      → ◌≡◌ {A = Result LaneError (List Tx × List Tx × Ctx)}
          (ok (own, rest, c))
          (ok (own', rest', c'))
      → P own' rest' c'
  by_parts P own rest own' rest' c c' p e =
      let same = ok-injective (own, rest, c) (own', rest', c') e in
      subst (λ (t : List Tx × List Tx × Ctx). P t.0 t.1 t.2) same p

  process_bid-Taken :
      (ctx : Ctx) (bid : Tx) (txs own rest : List Tx) (c' : Ctx)
      → lane.match_handler ctx bid ≡ true
      → process_bid env factory lane ctx bid txs ≡ ok (own, rest, c')
      → (bid ∷ txs ≡ own ++ rest) × Taken ctx own rest c'
  unfolding process_bid
  process_bid-Taken ctx bid txs own rest c' matched h =
      let (info, known, h₁) = >>=-eq-ok (get_bid_info env factory lane bid) _ h in
      let n = length info.transactions in
      let (enough, h₂) = guard-eq-ok (leb n (length txs)) _ _ h₁ in
      let (_, same, h₃) =
        >>=-eq-ok (match_bundle env factory lane info.transactions (take n txs)) _ h₂ in
      let (c, verified, h₄) =
        >>=-eq-ok (verify_bid_tx env factory lane ctx bid (take n txs)) _ h₃ in
      let size = length-take n txs (leb→le n (length txs) enough) in
      by_parts (λ o r d. (bid ∷ txs ≡ o ++ r) × Taken ctx o r d) (bid ∷ take n txs) (drop n txs) own
        rest c c'
        (
          ap (◌∷◌ bid) (sym (take-append-drop n txs)),
          inr (
            bid,
            take n txs,
            refl,
            record {
              matches = matched;
              info = info;
              known = known;
              included = match_bundle-Includes info.transactions (take n txs) size same;
              verified = verified;
            },
          ),
        )
        h₄

  pass_by-Taken :
      (ctx : Ctx) (tx : Tx) (txs own rest : List Tx) (c' : Ctx)
      → lane.match_handler ctx tx ≡ false
      → pass_by env factory lane ctx tx txs ≡ ok (own, rest, c')
      → (tx ∷ txs ≡ own ++ rest) × Taken ctx own rest c'
  unfolding pass_by
  pass_by-Taken ctx tx txs own rest c' foreign h =
      let (_, others, h₁) = >>=-eq-ok (verify_no_matches env lane ctx txs) _ h in
      by_parts (λ o r d. (tx ∷ txs ≡ o ++ r) × Taken ctx o r d) [] (tx ∷ txs) own rest ctx c'
        (refl, inl (refl, (foreign, verify_no_matches-IsForeign env lane ctx txs others), refl)) h₁

  -- What the `ProcessLaneHandler` of the auction lane takes and hands on is the proposal in its
  -- order. Either it takes nothing, no transaction matches the lane and the context is as before; or
  -- it takes a bid that matches the lane with all the transactions that the bid commits to, in their
  -- order and by their encodings, and the bid and its bundle pass `VerifyBidTx`.
  pub process_auction-Taken :
      (ctx : Ctx) (txs own rest : List Tx) (c' : Ctx)
      → process_auction env factory lane ctx txs ≡ ok (own, rest, c')
      → (txs ≡ own ++ rest) × Taken ctx own rest c'
  unfolding process_auction
  process_auction-Taken ctx [] own rest c' h =
      by_parts (λ o r d. ([] ≡ o ++ r) × Taken ctx o r d) [] [] own rest ctx c'
        (refl, inl (refl, tt, refl)) h
  process_auction-Taken ctx (tx ∷ txs) own rest c' h =
      elim (Bool-cases (lane.match_handler ctx tx)) [
        | inl matched ↦ process_bid-Taken ctx tx txs own rest c' matched (rw matched at h)
        | inr foreign ↦ pass_by-Taken ctx tx txs own rest c' foreign (rw foreign at h)
      ]

-- ===== src/Mev/Selected.antt =====
-- lanes/mev/abci.go: what the `PrepareLaneHandler` of the auction lane selects.
use block_sdk.Prelude.{
  ℕ, ◌≤◌, ◌≡◌, sym, ap, ◌∙◌, subst, Bool, true, false, not, List, [], ◌∷◌, ◌++◌, ℤ, ◌≤ℤ◌, leb,
  leb→le, leb_ℤ, add_int64, add_uint64, All, ok, >>=-eq-ok, guard-eq-ok, map_err, map_err-eq-ok,
  ok-injective, arith,
}
use mathlib.Core.List.{append_assoc, append-nil}
use block_sdk.Proposals.{Bytes, Proposal, LaneLimits, TxWithInfo, contains}
use block_sdk.Proposals.Totals.{IsNew}
use block_sdk.Sdk.{Tx}
use block_sdk.Base.{Env, LaneCore, get_tx_info, handler_failed}
use block_sdk.Base.Selection.{AreInfos}
use block_sdk.Auction.{BidInfo}
use block_sdk.Mev.{Factory}
use block_sdk.Mev.Proposal.{
  Bundle, get_bid_info, sum_bundle, verify_bid_basic, verify_bid_tx, try_bid,
}

-- The sums of the machine.
abbrev pub machine_size : ℤ → List TxWithInfo → ℤ
machine_size n [] = n
machine_size n (info ∷ infos) = machine_size (add_int64 n info.size) infos

abbrev pub machine_gas : ℕ → List TxWithInfo → ℕ
machine_gas n [] = n
machine_gas n (info ∷ infos) = machine_gas (add_uint64 n info.gas_limit) infos

not-true : {b : Bool} → not b ≡ true → b ≡ false
not-true {b} h = ground arith

module _ {Ctx LegacyDec M : Type 0} (env : Env Ctx LegacyDec M) (factory : Factory)
    (lane : LaneCore Ctx LegacyDec M) where
  -- The transactions are what the factory makes of the bundle.
  abbrev pub Wrapped : List Bytes → List Tx → Type 0
  Wrapped [] [] = Unit
  Wrapped (bz ∷ bzs) (tx ∷ txs) = (factory.wrap_bundle_transaction bz ≡ ok tx) × Wrapped bzs txs
  Wrapped _ _ = ⊥

  -- What the loop of `VerifyBidBasic` has added to its sums.
  pub record IsSummed (proposal : Proposal) (bzs : List Bytes) (b b' : Bundle) : Type 0 where
    pub txs : List Tx
    pub infos : List TxWithInfo
    pub wrapped : Wrapped bzs txs
    pub described : AreInfos env lane txs infos
    pub fresh : All (IsNew proposal) infos
    pub collected : b'.txs ≡ b.txs ++ txs
    pub size : b'.size ≡ machine_size b.size infos
    pub gas : b'.gas ≡ machine_gas b.gas infos

  sum_bundle-IsSummed :
      (proposal : Proposal) (bzs : List Bytes) (b b' : Bundle)
      → sum_bundle env factory lane proposal bzs b ≡ ok b'
      → IsSummed proposal bzs b b'
  unfolding sum_bundle AreInfos
  sum_bundle-IsSummed proposal [] b b' h =
      let same : b ≡ b' = ok-injective b b' h in
      record {
        txs = [];
        infos = [];
        wrapped = tt;
        described = tt;
        fresh = tt;
        collected = ap (λ (s : Bundle). s.txs) (sym same) ∙ sym (append-nil b.txs);
        size = ap (λ (s : Bundle). s.size) (sym same);
        gas = ap (λ (s : Bundle). s.gas) (sym same);
      }
  sum_bundle-IsSummed proposal (bz ∷ bzs) b b' h =
      let (tx, wrapped, h₁) =
        >>=-eq-ok (map_err handler_failed (factory.wrap_bundle_transaction bz)) _ h in
      let (info, known, h₂) = >>=-eq-ok (get_tx_info env lane tx) _ h₁ in
      let (fresh, h₃) = guard-eq-ok (not (contains proposal info.hash)) _ _ h₂ in
      let rest = sum_bundle-IsSummed proposal bzs _ b' h₃ in
      record {
        txs = tx ∷ rest.txs;
        infos = info ∷ rest.infos;
        wrapped = (
          map_err-eq-ok handler_failed (factory.wrap_bundle_transaction bz) wrapped,
          rest.wrapped,
        );
        described = (known, rest.described);
        fresh = (not-true fresh, rest.fresh);
        collected = rest.collected ∙ append_assoc b.txs (tx ∷ []) rest.txs;
        size = rest.size;
        gas = rest.gas;
      }

  -- A bid that the handler selects, with its bundle: what the checks of `VerifyBidBasic` and
  -- `VerifyBidTx` establish.
  pub record IsSelectedBid (ctx : Ctx) (proposal : Proposal) (limit : LaneLimits) (bid : Tx)
      (included : List Tx) (c' : Ctx) : Type 0 where
    pub matches : lane.match_handler ctx bid ≡ true
    pub info : BidInfo
    pub known : get_bid_info env factory lane bid ≡ ok info
    pub bundle : List Tx
    pub in_order : included ≡ bid ∷ bundle
    pub wrapped : Wrapped info.transactions bundle
    pub bid_info : TxWithInfo
    pub bundle_infos : List TxWithInfo
    pub described : AreInfos env lane (bid ∷ bundle) (bid_info ∷ bundle_infos)
    pub fresh : All (IsNew proposal) (bid_info ∷ bundle_infos)
    pub size_within : machine_size bid_info.size bundle_infos ≤ℤ limit.max_tx_bytes
    pub gas_within : machine_gas bid_info.gas_limit bundle_infos ≤ limit.max_gas_limit
    pub verified : verify_bid_tx env factory lane ctx bid bundle ≡ ok c'

  pub try_bid-IsSelectedBid :
      (ctx : Ctx) (proposal : Proposal) (limit : LaneLimits) (bid : Tx) (included : List Tx)
      (c' : Ctx)
      → try_bid env factory lane ctx bid proposal limit ≡ ok (included, c')
      → IsSelectedBid ctx proposal limit bid included c'
  unfolding try_bid verify_bid_basic AreInfos
  try_bid-IsSelectedBid ctx proposal limit bid included c' h =
      let (matched, h₁) = guard-eq-ok (lane.match_handler ctx bid) _ _ h in
      let (bundle, basic, h₂) =
        >>=-eq-ok (verify_bid_basic env factory lane bid proposal limit) _ h₁ in
      let (c, verified, h₃) = >>=-eq-ok (verify_bid_tx env factory lane ctx bid bundle) _ h₂ in
      let (info, known, b₁) = >>=-eq-ok (get_bid_info env factory lane bid) _ basic in
      let (tx_info, described, b₂) = >>=-eq-ok (get_tx_info env lane bid) _ b₁ in
      let (fresh, b₃) = guard-eq-ok (not (contains proposal tx_info.hash)) _ _ b₂ in
      let (b, summed, b₄) =
        >>=-eq-ok (sum_bundle env factory lane proposal info.transactions _) _ b₃ in
      let (size, b₅) = guard-eq-ok (leb_ℤ b.size limit.max_tx_bytes) _ _ b₄ in
      let (gas, b₆) = guard-eq-ok (leb b.gas limit.max_gas_limit) _ _ b₅ in
      let sums = sum_bundle-IsSummed proposal info.transactions _ b summed in
      let same : sums.txs ≡ bundle = sym sums.collected ∙ ok-injective b.txs bundle b₆ in
      let result = ok-injective (bid ∷ bundle, c) (included, c') h₃ in
      record {
        matches = matched;
        info = info;
        known = known;
        bundle = bundle;
        in_order = ap (λ (t : List Tx × Ctx). t.0) (sym result);
        wrapped = subst (Wrapped info.transactions) same sums.wrapped;
        bid_info = tx_info;
        bundle_infos = sums.infos;
        described =
            (described, subst (λ txs. AreInfos env lane txs sums.infos) same sums.described);
        fresh = (not-true fresh, sums.fresh);
        size_within = subst (λ n. n ≤ℤ limit.max_tx_bytes) sums.size (leb→le _ _ size);
        gas_within =
            subst (λ n. n ≤ limit.max_gas_limit) sums.gas (leb→le b.gas limit.max_gas_limit gas);
        verified = verified ∙ ap (λ (t : List Tx × Ctx). ok t.1) result;
      }

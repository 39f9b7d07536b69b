-- ===== src/Auction/Bundle/Order.antt =====
-- x/auction/keeper/auction.go: which orders of signers `ValidateAuctionBundle` accepts.
use block_sdk.Prelude.{
  ◌≡◌, ◌↔◌, ◌⊎◌, inl, inr, refl, ap, sym, subst, ◌∙◌, String, Bool, true, false, Bool-cases, List,
  [], ◌∷◌, ◌++◌, ok, >>=-eq-ok, has_key, str_eq, str_eq_iff, All, arith,
}
use block_sdk.Auction.{Signers}
use block_sdk.Auction.Bundle.{
  filter_signers, bidder_round, check_bidder, signers_round, check_signers, validate_auction_bundle,
}

-- Every transaction is signed by the signer.
abbrev pub Signed : String → List Signers → Type 0
Signed s txs = All (λ tx. has_key s tx ≡ true) txs

has_key-str_eq : (s k : String) (tx : Signers) → str_eq k s ≡ true → has_key s tx ≡ has_key k tx
has_key-str_eq s k tx h = ap (λ x. has_key x tx) (sym ((str_eq_iff k s).0 h))

filter_signers_sound :
    (s : String) (current tx : Signers)
    → has_key s (filter_signers current tx) ≡ true
    → (has_key s current ≡ true) × (has_key s tx ≡ true)
unfolding filter_signers has_key
filter_signers_sound s [] tx h = cc
filter_signers_sound s (k ∷ current) tx h = elim (Bool-cases (has_key k tx)) [
  | inl kept ↦ elim (Bool-cases (str_eq k s)) [
    | inl same ↦ (ground arith, has_key-str_eq s k tx same ∙ kept)
    | inr other ↦
        let h₀ = rw (kept, other) at h in
        let (a, b) = filter_signers_sound s current tx h₀ in (ground arith, b)
  ]
  | inr dropped ↦
      let h₀ = rw dropped at h in
      let (a, b) = filter_signers_sound s current tx h₀ in (ground arith, b)
]

filter_signers_complete :
    (s : String) (current tx : Signers)
    → has_key s current ≡ true
    → has_key s tx ≡ true
    → has_key s (filter_signers current tx) ≡ true
unfolding filter_signers has_key
filter_signers_complete s [] tx h k = cc
filter_signers_complete s (c ∷ current) tx h k = elim (Bool-cases (str_eq c s)) [
  | inl same ↦ rw (sym (has_key-str_eq s c tx same), k, same)
  | inr other ↦
      let h₀ = rw other at h in
      let rest = filter_signers_complete s current tx h₀ k in
      elim (Bool-cases (has_key c tx)) [
        | inl kept ↦ rw (kept, other, rest)
        | inr dropped ↦ rw (dropped, rest)
      ]
]

has_key-head : (s : String) (ss : Signers) → has_key s (s ∷ ss) ≡ true
unfolding has_key
has_key-head s ss = rw ((str_eq_iff s s).1 refl)

-- The bidder stays on its own while it signs.
filter_bidder :
    (bidder : String) (tx : Signers)
    → has_key bidder tx ≡ true
    → filter_signers (bidder ∷ []) tx ≡ bidder ∷ []
unfolding filter_signers
filter_bidder bidder tx h = rw h

check_bidder_iff :
    (bidder : String) (txs : List Signers)
    → (check_bidder (bidder ∷ []) txs ≡ ok tt) ↔ Signed bidder txs
unfolding check_bidder bidder_round filter_signers
check_bidder_iff bidder [] = (λ h. tt, λ h. refl)
check_bidder_iff bidder (tx ∷ txs) = elim (Bool-cases (has_key bidder tx)) [
  | inl signed ↦ (
    λ h. let h₀ = rw (signed, check_bidder) at h in (signed, (check_bidder_iff bidder txs).0 h₀),
    λ h. rw (signed, check_bidder, (check_bidder_iff bidder txs).1 h.1),
  )
  | inr unsigned ↦ (
    λ h. let h₀ = rw (unsigned, check_bidder) at h in absurd (ground arith),
    λ h. let signed = h.0 in cc,
  )
]

-- The first of the transactions after the first one are signed by a signer of the first one, and
-- the others by the bidder, who may only take over if it did not sign the first one.
pub record IsOrdered (bidder : String) (first : Signers) (seen : Bool) (txs : List Signers)
    : Type 0 where
  pub shared : List Signers
  pub taken_over : List Signers
  pub splits : txs ≡ shared ++ taken_over
  pub by_signer : (shared ≡ []) ⊎ ((s : String) × (has_key s first ≡ true) × Signed s shared)
  pub by_bidder : Signed bidder taken_over
  pub once : (taken_over ≡ []) ⊎ (seen ≡ false)

-- One more transaction that the common signer signs.
IsOrdered-step :
    (bidder : String) (seen : Bool) (previous tx : Signers) (txs : List Signers) (s₀ : String)
    → has_key s₀ (filter_signers previous tx) ≡ true
    → IsOrdered bidder (filter_signers previous tx) seen txs
    → IsOrdered bidder previous seen (tx ∷ txs)
IsOrdered-step bidder seen previous tx txs s₀ some_signer o = record {
  shared = tx ∷ o.shared;
  taken_over = o.taken_over;
  splits = ap (◌∷◌ tx) o.splits;
  by_signer = elim o.by_signer [
    | inl none_shared ↦
        let (a, b) = filter_signers_sound s₀ previous tx some_signer in
        inr (s₀, a, (b, subst (Signed s₀) (sym none_shared) tt))
    | inr (s, left, signed) ↦
        let (a, b) = filter_signers_sound s previous tx left in inr (s, a, (b, signed))
  ];
  by_bidder = o.by_bidder;
  once = o.once;
}

no_key : (s : String) → ¬ (has_key s [] ≡ true)
unfolding has_key
no_key s h = cc

-- The bidder takes over at once.
takes_over :
    (bidder : String) (previous : Signers) (seen : Bool) (txs : List Signers)
    → seen ≡ false
    → Signed bidder txs
    → IsOrdered bidder previous seen txs
takes_over bidder previous seen txs unseen signed = record {
  shared = [];
  taken_over = txs;
  splits = refl;
  by_signer = inl refl;
  by_bidder = signed;
  once = inr unseen;
}

check_signers-IsOrdered :
    (bidder : String) (seen : Bool) (previous : Signers) (txs : List Signers) {left : Signers}
    → check_signers bidder seen previous txs ≡ ok left
    → IsOrdered bidder previous seen txs
unfolding check_signers signers_round
check_signers-IsOrdered bidder seen previous [] h = record {
  shared = [];
  taken_over = [];
  splits = refl;
  by_signer = inl refl;
  by_bidder = tt;
  once = inl refl;
}
check_signers-IsOrdered bidder seen previous (tx ∷ txs) {left} h =
    by_filter (λ k. check_signers-IsOrdered bidder seen (filter_signers previous tx) txs k) seen
      refl (filter_signers previous tx) refl h
  where
    by_filter :
        (check_signers bidder seen (filter_signers previous tx) txs ≡ ok left
          → IsOrdered bidder (filter_signers previous tx) seen txs)
        → (b : Bool) → seen ≡ b
        → (l : Signers) → filter_signers previous tx ≡ l
        → signers_round b l
            (check_bidder (bidder ∷ []) (tx ∷ txs))
            (check_signers bidder seen (filter_signers previous tx) txs)
          ≡ ok left
        → IsOrdered bidder previous seen (tx ∷ txs)
    by_filter rest b e (s ∷ ss) f k =
        IsOrdered-step bidder seen previous tx txs s
          (subst (λ l. has_key s l ≡ true) (sym f) (has_key-head s ss)) (rest k)
    by_filter rest true e [] f k = absurd (ground arith)
    by_filter rest false e [] f k =
        let (_, taken, _) = >>=-eq-ok (check_bidder (bidder ∷ []) (tx ∷ txs)) _ k in
        takes_over bidder previous seen (tx ∷ txs) e ((check_bidder_iff bidder (tx ∷ txs)).0 taken)

-- `seen` and the split of the list, for the converse.
IsOrdered-check_signers :
    (bidder : String) (seen : Bool) (previous : Signers) (shared taken_over : List Signers)
    → (shared ≡ []) ⊎ ((s : String) × (has_key s previous ≡ true) × Signed s shared)
    → Signed bidder taken_over
    → (taken_over ≡ []) ⊎ (seen ≡ false)
    → (left : Signers) × (check_signers bidder seen previous (shared ++ taken_over) ≡ ok left)
unfolding check_signers signers_round
IsOrdered-check_signers bidder seen previous [] [] by_signer signed once = (previous, refl)
IsOrdered-check_signers bidder seen previous (tx ∷ shared) taken_over (inl e) signed once = cc
IsOrdered-check_signers bidder seen previous (tx ∷ shared) taken_over (inr (s, left, by_s)) signed
      once =
    let kept = filter_signers_complete s previous tx left by_s.0 in
    by_filter kept
      (IsOrdered-check_signers bidder seen (filter_signers previous tx) shared taken_over
        (inr (s, kept, by_s.1)) signed once)
      (filter_signers previous tx) refl
  where
    by_filter :
        has_key s (filter_signers previous tx) ≡ true
        → ((first' : Signers) × (check_signers bidder seen
                (filter_signers previous tx)
                (shared ++ taken_over)
              ≡ ok first'))
        → (l : Signers) → filter_signers previous tx ≡ l
        → (first' : Signers) × (signers_round seen l
              (check_bidder (bidder ∷ []) (tx ∷ shared ++ taken_over))
              (check_signers bidder seen (filter_signers previous tx) (shared ++ taken_over))
            ≡ ok first')
    by_filter kept rest [] f = absurd (no_key s (subst (λ l. has_key s l ≡ true) f kept))
    by_filter kept rest (k ∷ ks) f = rest
IsOrdered-check_signers bidder seen previous [] (tx ∷ txs) by_signer signed (inl e) = cc
IsOrdered-check_signers bidder seen previous [] (tx ∷ txs) by_signer signed (inr unseen) =
    by_filter
      (IsOrdered-check_signers bidder seen (filter_signers previous tx) [] txs (inl refl) signed.1
        (inr unseen))
      seen unseen (filter_signers previous tx) refl
  where
    by_filter :
        ((first' : Signers) × (check_signers bidder seen (filter_signers previous tx) txs
            ≡ ok first'))
        → (b : Bool) → b ≡ false
        → (l : Signers) → filter_signers previous tx ≡ l
        → (first' : Signers) × (signers_round b l
              (check_bidder (bidder ∷ []) (tx ∷ txs))
              (check_signers bidder seen (filter_signers previous tx) txs)
            ≡ ok first')
    by_filter rest b e (k ∷ ks) f = rest
    by_filter rest true e [] f = cc
    by_filter rest false e [] f = ([], rw ((check_bidder_iff bidder (tx ∷ txs)).1 signed))

-- A bundle of at least two transactions is accepted exactly when the transactions after the first
-- one split into some that one signer of the first one signs, and then some that the bidder signs,
-- where the latter is allowed only if the bidder did not sign the first one.
pub validate_auction_bundle_iff :
    (bidder : String) (first tx : Signers) (txs : List Signers)
    → ((after : List Signers) × (validate_auction_bundle bidder (first ∷ tx ∷ txs) ≡ ok after))
      ↔ IsOrdered bidder first (has_key bidder first) (tx ∷ txs)
unfolding validate_auction_bundle
validate_auction_bundle_iff bidder first tx txs = (
  λ accepted.
      let (left, checked, _) =
        >>=-eq-ok (check_signers bidder (has_key bidder first) first (tx ∷ txs)) _ accepted.1 in
      check_signers-IsOrdered bidder (has_key bidder first) first (tx ∷ txs) checked,
  λ o.
      let (left, checked) =
        IsOrdered-check_signers bidder (has_key bidder first) first o.shared o.taken_over
          o.by_signer o.by_bidder o.once in
      let checked' =
        subst (λ l. check_signers bidder (has_key bidder first) first l ≡ ok left) (sym o.splits)
          checked in
      (left ∷ tx ∷ txs, rw checked'),
)

-- ===== src/Mempool/Registry.antt =====
-- block/mempool.go: the registries that `ValidateBasic` accepts.
use block_sdk.Prelude.{
  ℕ, ◌+◌, ◌≤◌, ◌≡◌, ◌≢◌, ◌⊎◌, inl, inr, refl, sym, ap, ◌∙◌, subst, String, Bool, true, false, not,
  ◌&&◌, List, [], ◌∷◌, ℤ, pos, ◌+ℤ◌, ◌≤ℤ◌, ltb_ℤ, has_key, ok, >>=-eq-ok, guard, guard-eq-ok,
  ok-injective, arith, if◌then◌else◌,
}
use block_sdk.Decimal.{DecLaws, precision}
use block_sdk.Base.{Env}
use block_sdk.Base.Lane.{BaseLane}
use block_sdk.Mempool.{
  RegistryError, duplicate_name, second_unlimited, too_much_space, unused_space, Seen, check_lanes,
  check_sum, validate_registry,
}

abbrev bit : Bool → ℕ
bit true = 1
bit false = 0

module _ {Ctx LegacyDec M : Type 0} (env : Env Ctx LegacyDec M) (laws : DecLaws env.ops) where
  -- No lane has one of the names, or the name of a lane before it.
  abbrev pub HaveNewNames : List String → List (BaseLane Ctx LegacyDec M) → Type 0
  HaveNewNames names [] = Unit
  HaveNewNames names (lane ∷ lanes) =
      (has_key lane.lane_name names ≡ false) × HaveNewNames (lane.lane_name ∷ names) lanes

  -- the sum of the shares, in units, and the number of lanes without a share
  abbrev pub total_from : ℤ → List (BaseLane Ctx LegacyDec M) → ℤ
  total_from n [] = n
  total_from n (lane ∷ lanes) = total_from (n +ℤ laws.units lane.cfg.max_block_space) lanes

  abbrev pub count_unlimited : List (BaseLane Ctx LegacyDec M) → ℕ
  count_unlimited [] = 0
  count_unlimited (lane ∷ lanes) =
      bit (env.ops.is_zero lane.cfg.max_block_space) + count_unlimited lanes

  not-eq-true : (b : Bool) → not b ≡ true → b ≡ false
  not-eq-true true h = cc
  not-eq-true false h = refl

  marked :
      (seen zero : Bool)
      → (seen && zero) ≡ false
      → bit (if zero then true else seen) ≡ bit seen + bit zero
  marked true true h = cc
  marked true false h = refl
  marked false true h = refl
  marked false false h = refl

  check_lanes_effect :
      (lanes : List (BaseLane Ctx LegacyDec M)) (s s' : Seen env)
      → check_lanes env lanes s ≡ ok s'
      → HaveNewNames s.names lanes
        × (laws.units s'.sum ≡ total_from (laws.units s.sum) lanes)
        × (bit s'.unlimited ≡ bit s.unlimited + count_unlimited lanes)
  unfolding check_lanes
  check_lanes_effect [] s s' h =
      let e = ok-injective s s' h in
      let same = ap (λ (t : Seen env). bit t.unlimited) e in
      (tt, ap (λ (t : Seen env). laws.units t.sum) (sym e), omega (arith, same))
  check_lanes_effect (lane ∷ lanes) s s' h =
      let zero = env.ops.is_zero lane.cfg.max_block_space in
      let (fresh, h₁) =
        guard-eq-ok (not (has_key lane.lane_name s.names)) (duplicate_name lane.lane_name) _ h in
      let (single, h₂) = guard-eq-ok (not (s.unlimited && zero)) second_unlimited _ h₁ in
      let (names, total, count) = check_lanes_effect lanes _ s' h₂ in
      let one = marked s.unlimited zero (not-eq-true (s.unlimited && zero) single) in
      (
        (not-eq-true (has_key lane.lane_name s.names) fresh, names),
        total ∙ ap (λ n. total_from n lanes) (laws.plus_lem s.sum lane.cfg.max_block_space),
        omega (arith, one, count),
      )

  -- The names differ, at most one lane has no share, the shares sum to at most 1, and to 1 where no
  -- lane is without a share.
  pub record IsConfigured (lanes : List (BaseLane Ctx LegacyDec M)) : Type 0 where
    pub nonempty : lanes ≢ []
    pub names : HaveNewNames [] lanes
    pub one_unlimited : count_unlimited lanes ≤ 1
    pub within : total_from (pos 0) lanes ≤ℤ pos precision
    pub used : (pos precision ≤ℤ total_from (pos 0) lanes) ⊎ (count_unlimited lanes ≡ 1)

  bit_le : (b : Bool) → bit b ≤ 1
  bit_le true = omega arith
  bit_le false = omega arith

  ltb_ℤ_false : (a b : ℤ) → ltb_ℤ a b ≡ false → b ≤ℤ a
  ltb_ℤ_false a b h = ground arith

  guard_ok : (test : Bool) (e : RegistryError) → guard test e ≡ ok tt → test ≡ true
  guard_ok true e h = refl
  guard_ok false e h = ground arith

  full_or_unlimited :
      (below unlimited : Bool)
      → (below && not unlimited) ≡ false
      → (below ≡ false) ⊎ (bit unlimited ≡ 1)
  full_or_unlimited below true h = inr refl
  full_or_unlimited true false h = cc
  full_or_unlimited false false h = inl refl

  check_sum_effect :
      (s : Seen env)
      → check_sum env s ≡ ok tt
      → (laws.units s.sum ≤ℤ pos precision)
        × ((pos precision ≤ℤ laws.units s.sum) ⊎ (bit s.unlimited ≡ 1))
  unfolding check_sum
  check_sum_effect s h =
      let (more, h₁) = guard-eq-ok (not (env.ops.gt s.sum env.ops.one_dec)) too_much_space _ h in
      let one = laws.units_one in
      let above = laws.gt_lem s.sum env.ops.one_dec in
      let below = laws.lt_lem s.sum env.ops.one_dec in
      let within =
        ltb_ℤ_false (laws.units env.ops.one_dec) (laws.units s.sum)
          (sym above ∙ not-eq-true (env.ops.gt s.sum env.ops.one_dec) more) in
      let unused =
        not-eq-true (env.ops.lt s.sum env.ops.one_dec && not s.unlimited)
          (guard_ok _ unused_space h₁) in
      (
        subst (λ n. laws.units s.sum ≤ℤ n) one within,
        elim (full_or_unlimited (env.ops.lt s.sum env.ops.one_dec) s.unlimited unused) [
          | inl full ↦ inl (
              subst (λ n. n ≤ℤ laws.units s.sum) one
                (ltb_ℤ_false (laws.units s.sum) (laws.units env.ops.one_dec) (sym below ∙ full)))
          | inr free ↦ inr free
        ],
      )

  -- A registry that `ValidateBasic` accepts is not empty, its lanes have different names, at most one
  -- of them has a share of zero, and the shares sum to at most 1, and to 1 at least where no lane has
  -- a share of zero.
  pub validate_registry-IsConfigured :
      (lanes : List (BaseLane Ctx LegacyDec M))
      → validate_registry env lanes ≡ ok tt
      → IsConfigured lanes
  unfolding validate_registry
  validate_registry-IsConfigured [] h = absurd (ground arith)
  validate_registry-IsConfigured (lane ∷ lanes) h =
      let start : Seen env = record { sum = env.ops.zero_dec; unlimited = false; names = [] } in
      let (s, checked, h₁) = >>=-eq-ok (check_lanes env (lane ∷ lanes) start) _ h in
      let (names, total, count) = check_lanes_effect (lane ∷ lanes) start s checked in
      let (within, used) = check_sum_effect s h₁ in
      let same : laws.units s.sum ≡ total_from (pos 0) (lane ∷ lanes) =
        total ∙ ap (λ n. total_from n (lane ∷ lanes)) laws.units_zero in
      record {
        nonempty = λ e. cc;
        names = names;
        one_unlimited = omega (arith, count, bit_le s.unlimited);
        within = subst (λ n. n ≤ℤ pos precision) same within;
        used = elim used [
          | inl full ↦ inl (subst (λ n. pos precision ≤ℤ n) same full)
          | inr one ↦ inr (omega (arith, count))
        ];
      }

-- ===== src/Proposals/Limits.antt =====
-- What `GetLaneLimits` of block/proposals/proposals.go grants to the lanes.
use native.Mathlib.Nat.{div-mul-le_self}
use block_sdk.Prelude.{
  ℕ, zero, suc, ◌+◌, ◌-◌, ◌*◌, ◌/◌, ◌^◌, ◌≤◌, ◌<◌, ◌≡◌, ◌≢◌, refl, false, Bool-cases, inl, inr,
  List, [], ◌∷◌, pos, sub_int64_exact, arith, pos_part,
}
use block_sdk.Decimal.{DecOps, DecLaws, precision}
use block_sdk.Proposals.{Proposal, get_lane_limits}
use block_sdk.Proposals.Totals.{total_bytes}
use block_sdk.Proposals.Bounds.{IsValid}

-- the largest whole number in a share of `n`, for a ratio of `u` units
abbrev pub share : ℕ → ℕ → ℕ
share u n = u * n / precision

share-mul-le : (u n : ℕ) → share u n * precision ≤ u * n
share-mul-le u n = div-mul-le_self (u * n) precision

mul_mono : (u v n : ℕ) → u ≤ v → u * n ≤ v * n
mul_mono u v n h = grind arith

pub share-le : (u n : ℕ) → u ≤ precision → share u n ≤ n
share-le u n h = omega (arith, share-mul-le u n, mul_mono u precision n h)

abbrev pub sum_units : List ℕ → ℕ
sum_units [] = 0
sum_units (u ∷ us) = u + sum_units us

abbrev sum_shares : List ℕ → ℕ → ℕ
sum_shares [] n = 0
sum_shares (u ∷ us) n = share u n + sum_shares us n

sum_shares-mul-le : (us : List ℕ) (n : ℕ) → sum_shares us n * precision ≤ sum_units us * n
sum_shares-mul-le [] n = omega arith
sum_shares-mul-le (u ∷ us) n = omega (arith, share-mul-le u n, sum_shares-mul-le us n)

sum_shares-le : (us : List ℕ) (n : ℕ) → sum_units us ≤ precision → sum_shares us n ≤ n
sum_shares-le us n h = omega (arith, sum_shares-mul-le us n, mul_mono (sum_units us) precision n h)

module _ {LegacyDec : Type 0} (ops : DecOps LegacyDec) (laws : DecLaws ops) where
  open laws use {units, is_zero_iff, mul_int64_lem, mul_uint64_lem}

  not_zero : (ratio : LegacyDec) (u : ℕ) → units ratio ≡ pos u → u ≢ 0 → ops.is_zero ratio ≡ false
  not_zero ratio u e h = elim (Bool-cases (ops.is_zero ratio)) [
    | inl zero_ratio ↦ absurd (ground (arith, (is_zero_iff ratio).0 zero_ratio))
    | inr positive ↦ positive
  ]

  pub ratio_limits :
      (p : Proposal) (ratio : LegacyDec) (m u : ℕ)
      → p.info.max_block_size ≡ pos m
      → units ratio ≡ pos u
      → u ≢ 0
      → ((get_lane_limits ops p ratio).max_tx_bytes ≡ pos (share u m))
        × ((get_lane_limits ops p ratio).max_gas_limit ≡ share u p.info.max_gas_limit)
  unfolding get_lane_limits
  ratio_limits p ratio m u e d h = ground (
    arith,
    not_zero ratio u d h,
    mul_int64_lem ratio u m d,
    mul_uint64_lem ratio u p.info.max_gas_limit d,
  )

  pub zero_limits :
      (p : Proposal) (ratio : LegacyDec) (m : ℕ)
      → IsValid p
      → p.info.max_block_size ≡ pos m
      → m < 2 ^ 63
      → units ratio ≡ pos 0
      → ((get_lane_limits ops p ratio).max_tx_bytes ≡ pos (m - total_bytes p.txs))
        × ((get_lane_limits ops p ratio).max_gas_limit ≡ p.info.max_gas_limit - p.info.gas_limit)
  unfolding get_lane_limits
  zero_limits p ratio m valid e small d = ground (
    arith,
    (is_zero_iff ratio).1 d,
    sub_int64_exact m (total_bytes p.txs),
    valid.sized,
    valid.bytes_within,
  )

  -- On a valid proposal whose block size is at most the largest `int64`, a ratio between 0 and 1
  -- gets a limit of bytes and a limit of gas that are not negative and within those of the block.
  pub get_lane_limits_bounds :
      (p : Proposal) (ratio : LegacyDec) (m u : ℕ)
      → IsValid p
      → p.info.max_block_size ≡ pos m
      → m < 2 ^ 63
      → units ratio ≡ pos u
      → u ≤ precision
      → (b : ℕ) × ((get_lane_limits ops p ratio).max_tx_bytes ≡ pos b)
        × (b ≤ m)
        × ((get_lane_limits ops p ratio).max_gas_limit ≤ p.info.max_gas_limit)
  get_lane_limits_bounds p ratio m zero valid e small d h = (
    m - total_bytes p.txs,
    ground (arith, zero_limits p ratio m valid e small d),
    omega arith,
    ground (arith, zero_limits p ratio m valid e small d),
  )
  get_lane_limits_bounds p ratio m (suc u) valid e small d h =
      let limits = ratio_limits p ratio m (suc u) e d (omega arith) in
      (
        share (suc u) m,
        limits.0,
        share-le (suc u) m h,
        ground (arith, limits, share-le (suc u) p.info.max_gas_limit h),
      )

  -- On a valid proposal whose block size is at most the largest `int64`, a ratio of zero gets
  -- exactly what the block has left: what the proposal holds and the limit sum to the maximum of
  -- the block, in bytes and in gas.
  pub get_lane_limits_remaining :
      (p : Proposal) (ratio : LegacyDec) (m : ℕ)
      → IsValid p
      → p.info.max_block_size ≡ pos m
      → m < 2 ^ 63
      → units ratio ≡ pos 0
      → (b : ℕ) × ((get_lane_limits ops p ratio).max_tx_bytes ≡ pos b)
        × (total_bytes p.txs + b ≡ m)
        × (p.info.gas_limit + (get_lane_limits ops p ratio).max_gas_limit ≡ p.info.max_gas_limit)
  get_lane_limits_remaining p ratio m valid e small d = (
    m - total_bytes p.txs,
    ground (arith, zero_limits p ratio m valid e small d),
    ground (arith, valid.sized, valid.bytes_within),
    ground (arith, zero_limits p ratio m valid e small d, valid.gas_within),
  )

  abbrev pub AreUnits : List LegacyDec → List ℕ → Type 0
  AreUnits [] [] = Unit
  AreUnits (d ∷ ds) (u ∷ us) = (units d ≡ pos u) × (u ≢ 0) × AreUnits ds us
  AreUnits _ _ = ⊥

  -- The limits that `GetLaneLimits` gives on one proposal, summed over a list of ratios.
  pub sum_bytes : Proposal → List LegacyDec → ℕ
  sum_bytes p [] = 0
  sum_bytes p (d ∷ ds) = pos_part (get_lane_limits ops p d).max_tx_bytes + sum_bytes p ds

  pub sum_gas : Proposal → List LegacyDec → ℕ
  sum_gas p [] = 0
  sum_gas p (d ∷ ds) = (get_lane_limits ops p d).max_gas_limit + sum_gas p ds

  module _ (p : Proposal) (m : ℕ) (max : p.info.max_block_size ≡ pos m) where
    sum-eq-sum_shares :
        (ds : List LegacyDec) (us : List ℕ)
        → AreUnits ds us
        → (sum_bytes p ds ≡ sum_shares us m) × (sum_gas p ds ≡ sum_shares us p.info.max_gas_limit)
    unfolding sum_bytes sum_gas
    sum-eq-sum_shares [] [] h = (refl, refl)
    sum-eq-sum_shares [] (u ∷ us) h = absurd h
    sum-eq-sum_shares (d ∷ ds) [] h = absurd h
    sum-eq-sum_shares (d ∷ ds) (u ∷ us) h =
        ground (arith, ratio_limits p d m u max h.0 h.1, sum-eq-sum_shares ds us h.2)

    -- For ratios that are not zero and sum to at most 1 the limits of the lanes together stay
    -- within the block, in bytes and in gas: each of the lanes can be filled to its limit.
    pub sum-le-max :
        (ds : List LegacyDec) (us : List ℕ)
        → AreUnits ds us
        → sum_units us ≤ precision
        → (sum_bytes p ds ≤ m) × (sum_gas p ds ≤ p.info.max_gas_limit)
    sum-le-max ds us h within = ground (
      arith,
      sum-eq-sum_shares ds us h,
      sum_shares-le us m within,
      sum_shares-le us p.info.max_gas_limit within,
    )

-- ===== src/Tests/Decimals.antt =====
-- Decimals as whole numbers of units, to run the program on: the laws of `DecLaws` can hold.
use block_sdk.Prelude.{
  ℕ, ◌*◌, ◌/◌, ◌≡◌, ◌↔◌, refl, Bool, true, false, ℤ, pos, negsuc, ◌+ℤ◌, ltb_ℤ, ◌==◌, arith,
}
use block_sdk.Decimal.{DecOps, DecLaws, precision}

abbrev pub is_zero : ℤ → Bool
is_zero (pos n) = n == 0
is_zero (negsuc n) = false

abbrev pub times : ℤ → ℕ → ℕ
times (pos u) n = u * n / precision
times (negsuc u) n = 0

abbrev pub times_int : ℤ → ℤ → ℤ
times_int d (pos n) = pos (times d n)
times_int d (negsuc n) = pos 0

abbrev pub units_ops : DecOps ℤ
units_ops = record {
  zero_dec = pos 0;
  one_dec = pos precision;
  is_nil = λ d. false;
  is_zero = is_zero;
  is_negative = λ d. ltb_ℤ d (pos 0);
  gt = λ a b. ltb_ℤ b a;
  lt = λ a b. ltb_ℤ a b;
  plus = ◌+ℤ◌;
  mul_int64 = times_int;
  mul_uint64 = times;
}

pub is_zero_iff : (d : ℤ) → (is_zero d ≡ true) ↔ (d ≡ pos 0)
is_zero_iff d = ground arith

pub times_lem : (d : ℤ) (u n : ℕ) → d ≡ pos u → times d n ≡ u * n / precision
times_lem (pos v) u n e = ground arith
times_lem (negsuc v) u n e = cc

pub times_int_lem : (d : ℤ) (u n : ℕ) → d ≡ pos u → times_int d (pos n) ≡ pos (u * n / precision)
times_int_lem (pos v) u n e = ground arith
times_int_lem (negsuc v) u n e = cc

abbrev pub units_laws : DecLaws units_ops
units_laws = record {
  units = λ d. d;
  units_zero = refl;
  units_one = refl;
  is_zero_iff = is_zero_iff;
  is_negative_lem = λ d. refl;
  gt_lem = λ a b. refl;
  lt_lem = λ a b. refl;
  plus_lem = λ a b. refl;
  mul_int64_lem = times_int_lem;
  mul_uint64_lem = times_lem;
}

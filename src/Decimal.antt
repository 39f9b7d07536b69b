-- ===== src/Decimal.antt =====
-- `cosmossdk.io/math.LegacyDec` and `math.Int`, which the program takes from the SDK: the
-- operations that it calls, and what their documentation says of them. A decimal is documented as
-- an integer of units of 10 ^ -18.
use block_sdk.Prelude.{ℕ, ◌*◌, ◌/◌, ◌^◌, ◌≡◌, ◌↔◌, Bool, true, ℤ, pos, ◌+ℤ◌, ltb_ℤ}

pub record DecOps (LegacyDec : Type 0) : Type 0 where
  -- `LegacyZeroDec()` and `LegacyOneDec()`
  pub zero_dec : LegacyDec
  pub one_dec : LegacyDec
  pub is_nil : LegacyDec → Bool
  pub is_zero : LegacyDec → Bool
  pub is_negative : LegacyDec → Bool
  pub gt : LegacyDec → LegacyDec → Bool
  pub lt : LegacyDec → LegacyDec → Bool
  pub plus : LegacyDec → LegacyDec → LegacyDec
  -- `d.MulInt64(n).TruncateInt().Int64()`
  pub mul_int64 : LegacyDec → ℤ → ℤ
  -- `d.MulInt(math.NewIntFromUint64(n)).TruncateInt().Uint64()`
  pub mul_uint64 : LegacyDec → ℕ → ℕ

abbrev pub precision : ℕ
precision = 10 ^ 18

-- The documented meaning of the operations, by the integer that a decimal stands for. The products
-- are stated where the source uses them: for a decimal that is not negative.
pub record DecLaws {LegacyDec : Type 0} (ops : DecOps LegacyDec) : Type 0 where
  pub units : LegacyDec → ℤ
  pub units_zero : units ops.zero_dec ≡ pos 0
  pub units_one : units ops.one_dec ≡ pos precision
  pub is_zero_iff : (d : LegacyDec) → (ops.is_zero d ≡ true) ↔ (units d ≡ pos 0)
  pub is_negative_lem : (d : LegacyDec) → ops.is_negative d ≡ ltb_ℤ (units d) (pos 0)
  pub gt_lem : (a b : LegacyDec) → ops.gt a b ≡ ltb_ℤ (units b) (units a)
  pub lt_lem : (a b : LegacyDec) → ops.lt a b ≡ ltb_ℤ (units a) (units b)
  pub plus_lem : (a b : LegacyDec) → units (ops.plus a b) ≡ units a +ℤ units b
  pub mul_int64_lem :
      (d : LegacyDec) (u n : ℕ)
      → units d ≡ pos u
      → ops.mul_int64 d (pos n) ≡ pos (u * n / precision)
  pub mul_uint64_lem :
      (d : LegacyDec) (u n : ℕ) → units d ≡ pos u → ops.mul_uint64 d n ≡ u * n / precision

-- ===== src/Auction/Coins.antt =====
-- The coins and decimal coins of the SDK, as x/auction/keeper/auction.go uses them: what is documented
-- of the operations.
use block_sdk.Prelude.{
  ℕ, zero, suc, ◌+◌, ◌-◌, ◌*◌, ◌/◌, ◌≤◌, ◌≡◌, refl, String, Option, none, some, List, [], ◌∷◌, ℤ,
  pos, negsuc, leb, str_eq, str_eq_iff, ok, arith, if◌then◌else◌,
}
use block_sdk.Decimal.{precision}
use block_sdk.Sdk.{Coin}
use block_sdk.Auction.{DecCoin, CoinOps}
use block_sdk.Auction.Bid.{or_panic}

-- The coins of one denomination alone: none for an amount of 0, since the SDK drops zero coins.
abbrev pub coins_of : String → ℕ → List Coin
coins_of denom zero = []
coins_of denom (suc n) = record { denom = denom; amount = some (pos (suc n)) } ∷ []

-- The same with decimals, by the amount in units of 10 ^ -18.
abbrev pub dec_coins_of :
    {LegacyDec : Type 0} → (ℕ → LegacyDec) → String → ℕ → List (DecCoin LegacyDec)
dec_coins_of decimal denom zero = []
dec_coins_of decimal denom (suc m) = record { denom = denom; amount = decimal (suc m) } ∷ []

-- What the documentation of the SDK says of each operation where it does not panic, on coins of one
-- denomination whose amount is not negative. `decimal m` is the decimal of `m` units of 10 ^ -18.
pub record CoinLaws {LegacyDec : Type 0} (ops : CoinOps LegacyDec) : Type 0 where
  pub units : LegacyDec → ℤ
  pub decimal : ℕ → LegacyDec
  pub is_gte_lem :
      (a b : Coin) (m n : ℕ)
      → a.denom ≡ b.denom
      → a.amount ≡ some (pos m)
      → b.amount ≡ some (pos n)
      → ops.is_gte a b ≡ leb n m
  pub add_lem :
      (a b : Coin) (m n : ℕ)
      → a.amount ≡ some (pos m)
      → b.amount ≡ some (pos n)
      → ops.add a b ≡ (
          if str_eq a.denom b.denom
          then some (record { denom = a.denom; amount = some (pos (m + n)) })
          else none)
  pub new_coins_lem :
      (c : Coin) (n : ℕ) (cs : List Coin)
      → c.amount ≡ some (pos n)
      → ops.new_coins c ≡ some cs
      → cs ≡ coins_of c.denom n
  -- of one coin, which may be zero
  pub new_dec_coins_one :
      (c : Coin) (n : ℕ) (ds : List (DecCoin LegacyDec))
      → c.amount ≡ some (pos n)
      → ops.new_dec_coins_from_coins (c ∷ []) ≡ some ds
      → ds ≡ dec_coins_of decimal c.denom (n * precision)
  pub new_dec_coins_lem :
      (denom : String) (n : ℕ) (ds : List (DecCoin LegacyDec))
      → ops.new_dec_coins_from_coins (coins_of denom n) ≡ some ds
      → ds ≡ dec_coins_of decimal denom (n * precision)
  -- the product of two decimals, cut off after 18 digits
  pub mul_dec_truncate_lem :
      (denom : String) (m u : ℕ) (d : LegacyDec) (ds : List (DecCoin LegacyDec))
      → units d ≡ pos u
      → ops.mul_dec_truncate (dec_coins_of decimal denom m) d ≡ some ds
      → ds ≡ dec_coins_of decimal denom (u * m / precision)
  -- the whole coins in it
  pub truncate_decimal_lem :
      (denom : String) (m : ℕ) (cs : List Coin)
      → ops.truncate_decimal (dec_coins_of decimal denom m) ≡ some cs
      → cs ≡ coins_of denom (m / precision)
  -- a negative difference panics
  pub sub_dec_lem :
      (denom : String) (m n : ℕ) (ds : List (DecCoin LegacyDec))
      → ops.sub_dec (dec_coins_of decimal denom m) (dec_coins_of decimal denom n) ≡ some ds
      → (n ≤ m) × (ds ≡ dec_coins_of decimal denom (m - n))

-- The amount of a denomination in a list of coins.
abbrev pub coin_amount : Option ℤ → ℕ
coin_amount none = 0
coin_amount (some (pos n)) = n
coin_amount (some (negsuc n)) = 0

abbrev pub amount_in : String → List Coin → ℕ
amount_in denom [] = 0
amount_in denom (c ∷ cs) =
    (if str_eq c.denom denom then coin_amount c.amount else 0) + amount_in denom cs

pub amount_in-coins_of : (denom : String) (n : ℕ) → amount_in denom (coins_of denom n) ≡ n
amount_in-coins_of denom zero = refl
amount_in-coins_of denom (suc n) = rw ((str_eq_iff denom denom).1 refl) (omega arith)

pub or_panic-eq-ok : {A : Type 0} (o : Option A) (a : A) → or_panic o ≡ ok a → o ≡ some a
unfolding or_panic
or_panic-eq-ok none a h = cc
or_panic-eq-ok (some b) a h = cc

-- What the escrow account gets, once a whole number of coins is taken from the bid.
pub rest-eq :
    (n r : ℕ)
    → r * precision ≤ n * precision
    → (r ≤ n) × ((n * precision - r * precision) / precision ≡ n - r)
rest-eq n r h = omega arith

-- ===== src/Tests/Auction.antt =====
-- x/auction at concrete inputs: a state of the stored bytes and of the amounts that were sent.
use block_sdk.Prelude.{
  ℕ, zero, suc, Bool-cases, inl, inr, leb→le, ◌+◌, ◌-◌, ◌*◌, ◌/◌, ◌≤◌, ◌≡◌, ◌≢◌, ◌↔◌, refl, String,
  true, Option, none, some, List, [], ◌∷◌, ℤ, pos, negsuc, leb, str_eq, str_eq_iff, has_key, ok,
  err, arith, if◌then◌else◌,
}
use block_sdk.Decimal.{precision}
use block_sdk.Proposals.{Bytes}
use block_sdk.Sdk.{Coin}
use block_sdk.Auction.{
  wrong_timeout, Params, BidInfo, DecCoin, CoinOps, Host, Signers, get_params, set_params,
}
use block_sdk.Auction.Bundle.{
  filter_signers, check_bidder, bidder_round, signers_round, check_signers, validate_auction_bundle,
  check_timeouts, validate_bundle_timeouts,
}
use block_sdk.Auction.Bundle.Order.{IsOrdered, validate_auction_bundle_iff}
use block_sdk.Auction.Bundle.Aliasing.{check_timeouts_skipped}
use block_sdk.Auction.Bid.{
  is_nil_coin, escrow_of, or_panic, send_bid, rewards_of, split_bid, extract_bid, check_increment,
  validate_auction_bid, protect, validate_bid_info,
}
use block_sdk.Auction.Coins.{coins_of, dec_coins_of, CoinLaws}
use block_sdk.Auction.Extract.{IsPaid, extract_bid-IsPaid}
use block_sdk.Auction.Accepted.{validate_bid_info-bounds}
use block_sdk.Auction.Server.{update_params, get_params-update_params}
use block_sdk.Tests.Decimals.{is_zero}

abbrev pub amount_of : Option ℤ → ℕ
amount_of (some (pos n)) = n
amount_of _ = 0

abbrev pub value : List Coin → ℕ
value [] = 0
value (c ∷ cs) = amount_of c.amount + value cs

abbrev pub coin : String → ℕ → Coin
coin denom n = record { denom = denom; amount = some (pos n) }

abbrev units_of : ℤ → ℕ
units_of (pos u) = u
units_of (negsuc u) = 0

-- The coins of the SDK, on at most one denomination.
abbrev to_dec : List Coin → Option (List (DecCoin ℤ))
to_dec [] = some []
to_dec (c ∷ cs) = some (dec_coins_of pos c.denom (amount_of c.amount * precision))

abbrev share : List (DecCoin ℤ) → ℤ → Option (List (DecCoin ℤ))
share [] d = some []
share (c ∷ cs) d = some (dec_coins_of pos c.denom (units_of d * units_of c.amount / precision))

abbrev whole : List (DecCoin ℤ) → Option (List Coin)
whole [] = some []
whole (c ∷ cs) = some (coins_of c.denom (units_of c.amount / precision))

abbrev minus : List (DecCoin ℤ) → List (DecCoin ℤ) → Option (List (DecCoin ℤ))
minus ds [] = some ds
minus [] (b ∷ es) = none
minus (a ∷ ds) (b ∷ es) =
    if leb (units_of b.amount) (units_of a.amount)
    then some (dec_coins_of pos a.denom (units_of a.amount - units_of b.amount))
    else none

abbrev pub coin_ops : CoinOps ℤ
coin_ops = record {
  is_gte = λ a b. leb (amount_of b.amount) (amount_of a.amount);
  add = λ a b.
      if str_eq a.denom b.denom
      then some (coin a.denom (amount_of a.amount + amount_of b.amount))
      else none;
  is_zero_fee = is_zero;
  new_coins = λ c. some (coins_of c.denom (amount_of c.amount));
  new_dec_coins_from_coins = to_dec;
  mul_dec_truncate = share;
  truncate_decimal = whole;
  sub_dec = minus;
}

pub same_value : {A : Type 0} (a b : A) → some a ≡ some b → b ≡ a
same_value a b h = cc

pub to_dec_lem :
    (denom : String) (n : ℕ) (ds : List (DecCoin ℤ))
    → to_dec (coins_of denom n) ≡ some ds
    → ds ≡ dec_coins_of pos denom (n * precision)
to_dec_lem denom zero ds h = same_value _ ds h
to_dec_lem denom (suc n) ds h = same_value _ ds h

none_of : (u : ℕ) → u * 0 / precision ≡ 0
none_of u = omega arith

pub share_lem :
    (denom : String) (m u : ℕ) (d : ℤ) (ds : List (DecCoin ℤ))
    → d ≡ pos u
    → share (dec_coins_of pos denom m) d ≡ some ds
    → ds ≡ dec_coins_of pos denom (u * m / precision)
share_lem denom zero u d ds e h = rw (none_of u) (same_value _ ds h)
share_lem denom (suc m) u d ds e h = same_value _ ds (rw e at h)

pub whole_lem :
    (denom : String) (m : ℕ) (cs : List Coin)
    → whole (dec_coins_of pos denom m) ≡ some cs
    → cs ≡ coins_of denom (m / precision)
whole_lem denom zero cs h = same_value _ cs h
whole_lem denom (suc m) cs h = same_value _ cs h

less_zero : (m : ℕ) → m - 0 ≡ m
less_zero m = omega arith

pub minus_lem :
    (denom : String) (m n : ℕ) (ds : List (DecCoin ℤ))
    → minus (dec_coins_of pos denom m) (dec_coins_of pos denom n) ≡ some ds
    → (n ≤ m) × (ds ≡ dec_coins_of pos denom (m - n))
minus_lem denom m zero ds h = (omega arith, rw (less_zero m) (same_value _ ds h))
minus_lem denom zero (suc n) ds h = absurd (let none_some = h in cc)
minus_lem denom (suc m) (suc n) ds h = elim (Bool-cases (leb (suc n) (suc m))) [
  | inl within ↦ (leb→le (suc n) (suc m) within, same_value _ ds (rw within at h))
  | inr more ↦ absurd (let none_some = rw more at h in cc)
]

abbrev pub coin_laws : CoinLaws coin_ops
coin_laws = record {
  units = λ d. d;
  decimal = pos;
  is_gte_lem = λ a b m n same am bn. rw (am, bn);
  add_lem = λ a b m n am bn. rw (am, bn);
  new_coins_lem = λ c n cs e done. same_value _ cs (rw e at done);
  new_dec_coins_one = λ c n ds e done. same_value _ ds (rw e at done);
  new_dec_coins_lem = to_dec_lem;
  mul_dec_truncate_lem = share_lem;
  truncate_decimal_lem = whole_lem;
  sub_dec_lem = minus_lem;
}

abbrev pub params : Params ℤ
params = record {
  max_bundle_size = 2;
  escrow_account_address = some "escrow";
  reserve_fee = coin "stake" 10;
  min_bid_increment = coin "stake" 5;
  front_running_protection = true;
  proposer_fee = pos (precision / 4);
}

-- the stored bytes, and what every address received
abbrev pub State : Type 0
State = Bytes × List (String × ℕ)

abbrev pub host : Host State ℤ
host = record {
  get = λ s. s.0;
  set = λ bz s. (bz, s.1);
  marshal = λ p. ok (1 ∷ []);
  unmarshal = λ bz. ok params;
  module_address = "auction";
  send_coins = λ from to coins s. ok (s.0, (to, value coins) ∷ s.1);
  send_coins_to_module = λ from coins s. ok (s.0, ("auction", value coins) ∷ s.1);
  get_rewards_address = λ s. ok "proposer";
  authority = "gov";
}

abbrev pub before : State
before = (1 ∷ [], [])

abbrev pub after : State
after = (1 ∷ [], ("escrow", 75) ∷ ("proposer", 25) ∷ [])

abbrev pub info : BidInfo
info = record {
  bidder = "bob";
  bid = coin "stake" 100;
  transactions = (1 ∷ []) ∷ (2 ∷ []) ∷ [];
  timeout = 7;
  signers = ("alice" ∷ []) ∷ ("bob" ∷ []) ∷ [];
  transaction_timeouts = 3 ∷ 7 ∷ [];
}

unfoldable pub program : Unit {0}
unfolding get_params set_params update_params filter_signers check_bidder bidder_round signers_round
    check_signers validate_auction_bundle check_timeouts validate_bundle_timeouts is_nil_coin
    escrow_of or_panic send_bid rewards_of split_bid extract_bid check_increment
    validate_auction_bid protect validate_bid_info has_key str_eq
program = tt

pub params_known : get_params host before ≡ ok params
unfolding program
params_known = refl

pub extracted : extract_bid host coin_ops "bob" (coin "stake" 100) before ≡ ok after
unfolding program
extracted = refl

pub accepted : validate_bid_info host coin_ops (coin "stake" 90) info before ≡ ok after
unfolding program
accepted = refl

extract_bid-IsPaid_example : IsPaid host coin_ops coin_laws params "bob" "stake" 100 before after
extract_bid-IsPaid_example =
    extract_bid-IsPaid host coin_ops coin_laws params "bob" (coin "stake" 100) 100 (precision / 4)
      before after params_known refl refl extracted

validate_bid_info-bounds_example :
    (2 ≤ 2)
    × (info.bid.denom ≡ params.reserve_fee.denom)
    × (10 ≤ 100)
    × (90 + 5 ≤ 100)
    × (extract_bid host coin_ops "bob" (coin "stake" 100) before ≡ ok after)
validate_bid_info-bounds_example =
    validate_bid_info-bounds host coin_ops coin_laws params info (coin "stake" 90) 100 90 10 5
      before after params_known refl refl refl refl accepted

validate_auction_bundle_iff_example :
    ((left : List Signers) × (validate_auction_bundle "bob" (("alice" ∷ []) ∷ ("bob" ∷ []) ∷ [])
        ≡ ok left))
    ↔ IsOrdered "bob" ("alice" ∷ []) (has_key "bob" ("alice" ∷ [])) (("bob" ∷ []) ∷ [])
validate_auction_bundle_iff_example =
    validate_auction_bundle_iff "bob" ("alice" ∷ []) ("bob" ∷ []) []

pub alice-bob : ◌≢◌ {A = String} "alice" "bob"
unfolding program
alice-bob e = let h = (str_eq_iff "alice" "bob").1 e in cc

check_timeouts_skipped_example :
    (left : List (List String)) × (validate_auction_bundle "bob"
        (("bob" ∷ "alice" ∷ []) ∷ ("alice" ∷ []) ∷ [])
      ≡ ok left)
    × (check_timeouts "bob" 7 (99 ∷ 7 ∷ []) left ≡ ok tt)
    × (check_timeouts "bob" 7 (99 ∷ 7 ∷ []) (("bob" ∷ "alice" ∷ []) ∷ ("alice" ∷ []) ∷ [])
        ≡ err wrong_timeout)
check_timeouts_skipped_example =
    check_timeouts_skipped "bob" "alice" 7 99 7 alice-bob (λ e. ground arith)

updated : update_params host "gov" params ([], []) ≡ ok before
unfolding program
updated = refl

update_read : (host.authority ≡ host.authority) × (get_params host before ≡ ok params)
update_read =
    get_params-update_params host "gov" params (1 ∷ []) ([], []) before refl refl (λ e. cc) refl
      updated

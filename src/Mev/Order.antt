-- ===== src/Mev/Order.antt =====
-- lanes/mev/mempool.go: the priority of a bid and the top transaction of the auction lane.
use block_sdk.Prelude.{
  ℕ, suc, ◌<◌, ◌≡◌, ◌≢◌, refl, sym, ap, ◌∙◌, subst, String, Bool, Option, none, some, List, [], ◌∷◌,
  ℤ, pos, negsuc, ltb, Result, ok, err, arith, if◌then◌else◌,
}
use mathlib.Core.Path.{ap₂}
use block_sdk.Proposals.{SignerData}
use block_sdk.Sdk.{Coin, Tx}
use block_sdk.Auction.{BidInfo}
use block_sdk.Auction.Bid.{is_nil_coin}
use block_sdk.Mev.{Factory}
use block_sdk.Base.{Env}
use block_sdk.Base.Mempool.{first_signer, compare_signers, compare_txs}
use block_sdk.Mempool.Removal.{str_eq_apart}

-- What the priority uses of the coins of the SDK: `Coin.String`, `ParseCoinsNormalized`, where nil
-- coins are `none`, and two of the comparisons.
pub record CoinTexts (Coins : Type 0) : Type 0 where
  pub coin_string : Coin → String
  pub parse_coins_normalized : String → Option Coins
  pub is_all_gt : Coins → Coins → Bool
  pub is_all_lt : Coins → Coins → Bool

-- Documented behaviour: the text of a positive coin of a denomination that is not registered as a
-- multiple of another one is read back as that coin alone, and coins alone of one denomination
-- compare by their amounts.
pub record CoinTextLaws {Coins : Type 0} (texts : CoinTexts Coins) : Type 1 where
  pub IsPlain : String → Type 0
  pub alone : String → ℕ → Coins
  pub parse_lem :
      (coin : Coin) (n : ℕ)
      → IsPlain coin.denom
      → coin.amount ≡ some (pos (suc n))
      → texts.parse_coins_normalized (texts.coin_string coin) ≡ some (alone coin.denom (suc n))
  pub all_gt_lem :
      (denom : String) (m n : ℕ) → texts.is_all_gt (alone denom m) (alone denom n) ≡ ltb n m
  pub all_lt_lem :
      (denom : String) (m n : ℕ) → texts.is_all_lt (alone denom m) (alone denom n) ≡ ltb m n

module _ {Coins : Type 0} (texts : CoinTexts Coins) where
  -- `Bid.String()` of a bid that is not nil
  unfoldable pub bid_text : Option BidInfo → String
  bid_text none = ""
  bid_text (some info) = if is_nil_coin info.bid then "" else texts.coin_string info.bid

  -- `GetTxPriority` of `TxPriority`
  unfoldable pub get_tx_priority : {Ctx : Type 0} → Factory → Ctx → Tx → String
  get_tx_priority factory ctx tx = elim (factory.get_auction_bid_info tx) [
    | err e ↦ ""
    | ok info ↦ bid_text info
  ]

  -- The `switch` of `Compare` of `TxPriority`.
  unfoldable pub compare_coins : Option Coins → Option Coins → ℤ
  compare_coins none none = pos 0
  compare_coins none (some b) = negsuc 0
  compare_coins (some a) none = pos 1
  compare_coins (some a) (some b) =
      if texts.is_all_gt a b then pos 1 else if texts.is_all_lt a b then negsuc 0 else pos 0

  -- `Compare` of `TxPriority`
  unfoldable pub compare_priorities : String → String → ℤ
  compare_priorities a b =
      compare_coins (texts.parse_coins_normalized a) (texts.parse_coins_normalized b)

-- `GetTopAuctionTx`: a nil iterator is that of an empty mempool.
unfoldable pub get_top_auction_tx :
    {Ctx LegacyDec M : Type 0} → Env Ctx LegacyDec M → Ctx → M → Option Tx
get_top_auction_tx env ctx pool = elim (env.pool.select ctx pool) [ [] ↦ none | tx ∷ txs ↦ some tx ]

-- Transactions of different first signers compare by their priorities.
compare_txs_apart :
    {Ctx P : Type 0} (extract : Tx → Result String (List SignerData)) (priority : Ctx → Tx → P)
    (compare : P → P → ℤ) (ctx : Ctx) (this other : Tx) (x y : SignerData) (xs ys : List SignerData)
    → extract this ≡ ok (x ∷ xs)
    → extract other ≡ ok (y ∷ ys)
    → x.signer ≢ y.signer
    → compare_txs extract priority compare ctx this other
      ≡ ok (compare (priority ctx this) (priority ctx other))
unfolding compare_txs first_signer compare_signers
compare_txs_apart extract priority compare ctx this other x y xs ys signed signed' apart =
    rw (signed, signed', str_eq_apart x.signer y.signer apart) refl

priority_of_bid :
    {Coins Ctx : Type 0} (texts : CoinTexts Coins) (factory : Factory) (ctx : Ctx) (tx : Tx)
    (info : BidInfo) (n : ℕ)
    → factory.get_auction_bid_info tx ≡ ok (some info)
    → info.bid.amount ≡ some (pos n)
    → get_tx_priority texts factory ctx tx ≡ texts.coin_string info.bid
unfolding get_tx_priority bid_text is_nil_coin
priority_of_bid texts factory ctx tx info n known amount = ground arith

module _ {Coins : Type 0} (texts : CoinTexts Coins) (laws : CoinTextLaws texts) where
  compare_bids :
      (a b : Coin) (m n : ℕ)
      → laws.IsPlain a.denom
      → b.denom ≡ a.denom
      → a.amount ≡ some (pos (suc m))
      → b.amount ≡ some (pos (suc n))
      → m < n
      → (compare_priorities texts (texts.coin_string a) (texts.coin_string b) ≡ negsuc 0)
        × (compare_priorities texts (texts.coin_string b) (texts.coin_string a) ≡ pos 1)
  unfolding compare_priorities compare_coins
  compare_bids a b m n plain same a_amount b_amount less =
      let plain_b = subst laws.IsPlain (sym same) plain in
      let read_a = laws.parse_lem a m plain a_amount in
      let read_b =
        laws.parse_lem b n plain_b b_amount ∙ ap (λ d. some (laws.alone d (suc n))) same in
      let d = a.denom in
      rw (read_a, read_b)
        (
          ground (arith, laws.all_gt_lem d (suc m) (suc n), laws.all_lt_lem d (suc m) (suc n)),
          ground (arith, laws.all_gt_lem d (suc n) (suc m)),
        )

  -- Of two transactions of different first signers with bids of one denomination, both positive, the
  -- one with the higher bid has the higher priority in the mempool of the auction lane, whichever
  -- stands first; where the denomination is plain, so no registered multiple of another one, which
  -- the parser of coins would convert.
  pub compare_txs-bids :
      {Ctx : Type 0} (factory : Factory) (extract : Tx → Result String (List SignerData))
      (ctx : Ctx) (low high : Tx) (x y : SignerData) (xs ys : List SignerData) (a b : BidInfo)
      (m n : ℕ)
      → extract low ≡ ok (x ∷ xs)
      → extract high ≡ ok (y ∷ ys)
      → x.signer ≢ y.signer
      → factory.get_auction_bid_info low ≡ ok (some a)
      → factory.get_auction_bid_info high ≡ ok (some b)
      → laws.IsPlain a.bid.denom
      → b.bid.denom ≡ a.bid.denom
      → a.bid.amount ≡ some (pos (suc m))
      → b.bid.amount ≡ some (pos (suc n))
      → m < n
      → (compare_txs extract (get_tx_priority texts factory) (compare_priorities texts) ctx low high
          ≡ ok (negsuc 0))
        × (compare_txs extract
              (get_tx_priority texts factory)
              (compare_priorities texts)
              ctx
              high
              low
            ≡ ok (pos 1))
  compare_txs-bids factory extract ctx low high x y xs ys a b m n signed_low signed_high apart
        low_bid high_bid plain same a_amount b_amount less =
      let p = get_tx_priority texts factory in
      let c = compare_priorities texts in
      let of_low = priority_of_bid texts factory ctx low a (suc m) low_bid a_amount in
      let of_high = priority_of_bid texts factory ctx high b (suc n) high_bid b_amount in
      let (lower, higher) = compare_bids a.bid b.bid m n plain same a_amount b_amount less in
      (
        compare_txs_apart extract p c ctx low high x y xs ys signed_low signed_high apart
            ∙ ap₂ (λ s t. ok (c s t)) of_low of_high
            ∙ ap ok lower,
        compare_txs_apart extract p c ctx high low y x ys xs signed_high signed_low
              (λ e. apart (sym e))
            ∙ ap₂ (λ s t. ok (c s t)) of_high of_low
            ∙ ap ok higher,
      )

-- ===== src/Tests/Bids.antt =====
-- lanes/mev/mempool.go at concrete bids; the text of a coin is its amount in strokes.
use block_sdk.Prelude.{
  ℕ, zero, suc, ◌≡◌, refl, ap, ◌∙◌, String, Option, none, some, List, [], ◌∷◌, pos, negsuc, ltb,
  Result, ok, err, arith,
}
use block_sdk.Proposals.{SignerData}
use block_sdk.Sdk.{Tx}
use block_sdk.Mev.{Factory}
use block_sdk.Base.Mempool.{compare_txs}
use block_sdk.Mev.Order.{
  CoinTexts, CoinTextLaws, get_tx_priority, compare_priorities, compare_txs-bids,
}
use block_sdk.Tests.Lanes.{tx_of}
use block_sdk.Tests.Auction.{amount_of, coin, info, alice-bob}

abbrev strokes : ℕ → String
strokes zero = ""
strokes (suc n) = String.◌∷◌ "|" (strokes n)

abbrev count : String → ℕ
count String.[] = 0
count (String.◌∷◌ c s) = suc (count s)

count-strokes : (n : ℕ) → count (strokes n) ≡ n
count-strokes zero = refl
count-strokes (suc n) = ap suc (count-strokes n)

abbrev read : String → Option ℕ
read String.[] = none
read (String.◌∷◌ c s) = some (suc (count s))

abbrev texts : CoinTexts ℕ
texts = record {
  coin_string = λ c. strokes (amount_of c.amount);
  parse_coins_normalized = read;
  is_all_gt = λ a b. ltb b a;
  is_all_lt = λ a b. ltb a b;
}

abbrev laws : CoinTextLaws texts
laws = record {
  IsPlain = λ denom. denom ≡ "stake";
  alone = λ denom n. n;
  parse_lem = λ c n plain amount.
      ap (λ a. read (strokes (amount_of a))) amount ∙ ap (λ m. some (suc m)) (count-strokes n);
  all_gt_lem = λ denom m n. refl;
  all_lt_lem = λ denom m n. refl;
}

abbrev signers : Tx → Result String (List SignerData)
signers tx = elim tx.fee_gas [
  | none ↦ err "no signer"
  | some gas ↦ elim gas [
    | zero ↦ ok (record { signer = "alice"; sequence = 1 } ∷ [])
    | suc n ↦ ok (record { signer = "bob"; sequence = 1 } ∷ [])
  ]
]

abbrev factory : Factory
factory = record {
  wrap_bundle_transaction = λ bytes. err "unused";
  get_auction_bid_info = λ tx. elim tx.fee_gas [
    | none ↦ ok none
    | some gas ↦ elim gas [
      | zero ↦ ok (some (record info { bid = coin "stake" 3 }))
      | suc n ↦ ok (some (record info { bid = coin "stake" 8 }))
    ]
  ];
}

compare_txs-bids_example :
    (compare_txs {Ctx = ℕ} signers
        (get_tx_priority texts factory)
        (compare_priorities texts)
        0
        (tx_of [] 0)
        (tx_of [] 1)
      ≡ ok (negsuc 0))
    × (compare_txs {Ctx = ℕ} signers
          (get_tx_priority texts factory)
          (compare_priorities texts)
          0
          (tx_of [] 1)
          (tx_of [] 0)
        ≡ ok (pos 1))
compare_txs-bids_example =
    compare_txs-bids texts laws factory signers 0 (tx_of [] 0) (tx_of [] 1)
      (record { signer = "alice"; sequence = 1 }) (record { signer = "bob"; sequence = 1 }) [] []
      (record info { bid = coin "stake" 3 }) (record info { bid = coin "stake" 8 }) 2 7 refl refl
      alice-bob refl refl refl refl refl refl (omega arith)

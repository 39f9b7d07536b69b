-- ===== src/Mempool/Removal.antt =====
-- block/mempool.go: what `Remove` leaves of the mempools of the lanes.
use block_sdk.Prelude.{
  ◌≡◌, ◌≢◌, refl, sym, ◌∙◌, subst, String, true, false, Bool-cases, inl, inr, List, [], ◌∷◌, str_eq,
  str_eq_iff, has_key, ok, arith,
}
use block_sdk.Decimal.{DecLaws}
use block_sdk.Sdk.{Tx}
use block_sdk.Base.{Env}
use block_sdk.Base.Lane.{BaseLane, set_pool}
use block_sdk.Mempool.{remove_tx, contains_tx}
use block_sdk.Mempool.Registry.{HaveNewNames}

pub str_eq_apart : (a b : String) → a ≢ b → str_eq a b ≡ false
str_eq_apart a b h = elim (Bool-cases (str_eq a b)) [
  | inl same ↦ absurd (h ((str_eq_iff a b).0 same))
  | inr apart ↦ apart
]

pub key_apart :
    (a b : String) (names : List String) → has_key a names ≡ true → has_key b names ≡ false → a ≢ b
key_apart a b names known new e = ground (arith, subst (λ c. has_key c names ≡ true) e known)

pub has_key_later :
    (a b : String) (names : List String) → has_key a names ≡ true → has_key a (b ∷ names) ≡ true
unfolding has_key
has_key_later a b names h = ground (arith, h)

pub has_key_first : (a : String) (names : List String) → has_key a (a ∷ names) ≡ true
unfolding has_key
has_key_first a names = ground (arith, (str_eq_iff a a).1 refl)

module _ {Ctx LegacyDec M : Type 0} (env : Env Ctx LegacyDec M) (laws : DecLaws env.ops) where
  -- `Remove` of a transaction that the mempool of a lane contains succeeds, and it is gone.
  pub record IsRemoving (tx : Tx) : Type 0 where
    pub removes :
        (pool : M)
        → env.pool.holds pool tx ≡ true
        → (pool' : M) × (env.pool.remove tx pool ≡ ok pool') × (env.pool.holds pool' tx ≡ false)

  -- No two lanes contain the transaction.
  abbrev pub IsHeldOnce : List (BaseLane Ctx LegacyDec M) → (String → M) → Tx → Type 0
  IsHeldOnce [] pools tx = Unit
  IsHeldOnce (lane ∷ lanes) pools tx =
      (env.pool.holds (pools lane.lane_name) tx ≡ true → contains_tx env lanes pools tx ≡ false)
      × IsHeldOnce lanes pools tx

  contains_tx_others :
      (lanes : List (BaseLane Ctx LegacyDec M)) (names : List String) (pools : String → M)
      (name : String) (pool : M) (tx : Tx)
      → HaveNewNames env laws names lanes
      → has_key name names ≡ true
      → contains_tx env lanes (set_pool pools name pool) tx ≡ contains_tx env lanes pools tx
  unfolding contains_tx
  contains_tx_others [] names pools name pool tx new known = refl
  contains_tx_others (lane ∷ lanes) names pools name pool tx new known =
      let apart =
        str_eq_apart name lane.lane_name (key_apart name lane.lane_name names known new.0) in
      let rest =
        contains_tx_others lanes (lane.lane_name ∷ names) pools name pool tx new.1
          (has_key_later name lane.lane_name names known) in
      rw (apart, rest)

  -- What a call of `Remove` leaves, and that it contains the transaction no more.
  pub record IsRemoved (lanes : List (BaseLane Ctx LegacyDec M)) (names : List String)
      (pools : String → M) (tx : Tx) : Type 0 where
    pub left : String → M
    pub removed : remove_tx env lanes tx pools ≡ ok left
    pub gone : contains_tx env lanes left tx ≡ false
    pub others : (name : String) → has_key name names ≡ true → left name ≡ pools name

  first_lane :
      (lane : BaseLane Ctx LegacyDec M) (lanes : List (BaseLane Ctx LegacyDec M))
      (names : List String) (pools : String → M) (tx : Tx)
      → HaveNewNames env laws names (lane ∷ lanes)
      → IsRemoving tx
      → IsHeldOnce (lane ∷ lanes) pools tx
      → env.pool.holds (pools lane.lane_name) tx ≡ true
      → IsRemoved (lane ∷ lanes) names pools tx
  unfolding remove_tx contains_tx
  first_lane lane lanes names pools tx new removing once held =
      let (pool', done, free) = removing.removes (pools lane.lane_name) held in
      let name = lane.lane_name in
      let absent =
        contains_tx_others lanes (name ∷ names) pools name pool' tx new.1 (has_key_first name names)
        ∙ once.0 held in
      record {
        left = set_pool pools name pool';
        removed = rw (held, done);
        gone = rw ((str_eq_iff name name).1 refl, free, absent);
        others = λ other known.
            let apart =
              str_eq_apart name other (λ e. key_apart other name names known new.0 (sym e)) in
            rw (apart);
      }

  later_lane :
      (lane : BaseLane Ctx LegacyDec M) (lanes : List (BaseLane Ctx LegacyDec M))
      (names : List String) (pools : String → M) (tx : Tx)
      → env.pool.holds (pools lane.lane_name) tx ≡ false
      → IsRemoved lanes (lane.lane_name ∷ names) pools tx
      → IsRemoved (lane ∷ lanes) names pools tx
  unfolding remove_tx contains_tx
  later_lane lane lanes names pools tx free rest =
      let name = lane.lane_name in
      let same = rest.others name (has_key_first name names) in
      record {
        left = rest.left;
        removed = rw (free, rest.removed);
        gone = rw (same, free, rest.gone);
        others = λ other known. rest.others other (has_key_later other name names known);
      }

  pub remove_tx-IsRemoved :
      (lanes : List (BaseLane Ctx LegacyDec M)) (names : List String) (pools : String → M) (tx : Tx)
      → HaveNewNames env laws names lanes
      → IsRemoving tx
      → IsHeldOnce lanes pools tx
      → IsRemoved lanes names pools tx
  unfolding remove_tx contains_tx
  remove_tx-IsRemoved [] names pools tx new removing once = record {
    left = pools;
    removed = refl;
    gone = refl;
    others = λ other known. refl;
  }
  remove_tx-IsRemoved (lane ∷ lanes) names pools tx new removing once =
      let rest =
        remove_tx-IsRemoved lanes (lane.lane_name ∷ names) pools tx new.1 removing once.1 in
      elim (Bool-cases (env.pool.holds (pools lane.lane_name) tx)) [
        | inl held ↦ first_lane lane lanes names pools tx new removing once held
        | inr free ↦ later_lane lane lanes names pools tx free rest
      ]

-- ===== src/Mempool/Distribution.antt =====
-- block/mempool.go: `GetTxDistribution` and `CountTx`.
use block_sdk.Prelude.{
  ℕ, ◌+◌, ◌≡◌, ◌≢◌, refl, sym, ap, ◌∙◌, String, true, false, none, some, List, [], ◌∷◌, ◌++◌, map,
  All, All-map₂, str_eq, str_eq_iff, has_key, lookup, ||-eq-false, insert-new, lookup-append, ok,
  arith,
}
use mathlib.Core.List.{append-nil, append_assoc}
use block_sdk.Decimal.{DecLaws}
use block_sdk.Base.{Env}
use block_sdk.Base.Lane.{BaseLane}
use block_sdk.Mempool.{get_tx_distribution, count_tx_of, validate_registry}
use block_sdk.Mempool.Registry.{HaveNewNames, validate_registry-IsConfigured}
use block_sdk.Mempool.Removal.{str_eq_apart, key_apart, has_key_first, has_key_later}

abbrev pub sum_counts : List (String × ℕ) → ℕ
sum_counts [] = 0
sum_counts ((name, n) ∷ counts) = n + sum_counts counts

-- A name that is not among the names has no entry, also after one for a name is added.
still_absent :
    (k : String) (names : List String) (counts : List (String × ℕ)) (n : ℕ)
    → ((name : String) → has_key name names ≡ false → lookup name counts ≡ none)
    → (name : String) → has_key name (k ∷ names) ≡ false
    → lookup name (counts ++ (k, n) ∷ []) ≡ none
unfolding has_key
still_absent k names counts n absent name h =
    let (apart, unknown) = ||-eq-false (str_eq k name) (has_key name names) h in
    ground (arith, lookup-append name counts k n, absent name unknown)

empty_lookup : (name : String) → lookup {V = ℕ} name [] ≡ none
unfolding lookup
empty_lookup name = refl

module _ {Ctx LegacyDec M : Type 0} (env : Env Ctx LegacyDec M) (laws : DecLaws env.ops)
    (pools : String → M) where
  -- the entry of a lane
  abbrev pub count_of : BaseLane Ctx LegacyDec M → ℕ
  count_of lane = env.pool.count_tx (pools lane.lane_name)

  abbrev entry : BaseLane Ctx LegacyDec M → String × ℕ
  entry lane = (lane.lane_name, count_of lane)

  apart_from :
      (lanes : List (BaseLane Ctx LegacyDec M)) (names : List String) (name : String)
      → HaveNewNames env laws names lanes
      → has_key name names ≡ true
      → All (λ (lane : BaseLane Ctx LegacyDec M). str_eq name lane.lane_name ≡ false) lanes
  apart_from [] names name new known = tt
  apart_from (lane ∷ lanes) names name new known = (
    str_eq_apart name lane.lane_name (key_apart name lane.lane_name names known new.0),
    apart_from lanes (lane.lane_name ∷ names) name new.1
        (has_key_later name lane.lane_name names known),
  )

  distribution_entries :
      (lanes : List (BaseLane Ctx LegacyDec M)) (names : List String) (counts : List (String × ℕ))
      → HaveNewNames env laws names lanes
      → ((name : String) → has_key name names ≡ false → lookup name counts ≡ none)
      → get_tx_distribution env lanes pools counts ≡ counts ++ map entry lanes
  unfolding get_tx_distribution
  distribution_entries [] names counts new absent = sym (append-nil counts)
  distribution_entries (lane ∷ lanes) names counts new absent =
      ap (get_tx_distribution env lanes pools)
        (insert-new lane.lane_name (count_of lane) counts (absent lane.lane_name new.0))
      ∙ distribution_entries lanes (lane.lane_name ∷ names) (counts ++ entry lane ∷ []) new.1
          (still_absent lane.lane_name names counts (count_of lane) absent)
      ∙ append_assoc counts (entry lane ∷ []) (map entry lanes)

  lookup_entries :
      (lanes : List (BaseLane Ctx LegacyDec M)) (names : List String)
      → HaveNewNames env laws names lanes
      → All
          (λ (lane : BaseLane Ctx LegacyDec M).
            lookup lane.lane_name (map entry lanes) ≡ some (count_of lane))
          lanes
  unfolding lookup
  lookup_entries [] names new = tt
  lookup_entries (lane ∷ lanes) names new = (
    rw ((str_eq_iff lane.lane_name lane.lane_name).1 refl),
    All-map₂ (λ (l : BaseLane Ctx LegacyDec M). str_eq lane.lane_name l.lane_name ≡ false)
        (λ (l : BaseLane Ctx LegacyDec M). lookup l.lane_name (map entry lanes) ≡ some (count_of l))
        (λ (l : BaseLane Ctx LegacyDec M).
          lookup l.lane_name (map entry (lane ∷ lanes)) ≡ some (count_of l))
        (λ l apart known. rw apart known) lanes
        (apart_from lanes (lane.lane_name ∷ names) lane.lane_name new.1
          (has_key_first lane.lane_name names))
        (lookup_entries lanes (lane.lane_name ∷ names) new.1),
  )

  sum_entries :
      (lanes : List (BaseLane Ctx LegacyDec M))
      → sum_counts (map entry lanes) ≡ count_tx_of env lanes pools
  unfolding count_tx_of
  sum_entries [] = refl
  sum_entries (lane ∷ lanes) = ap (λ n. count_of lane + n) (sum_entries lanes)

  lookup_others :
      (lanes : List (BaseLane Ctx LegacyDec M)) (name : String)
      → All (λ (lane : BaseLane Ctx LegacyDec M). lane.lane_name ≢ name) lanes
      → lookup name (map entry lanes) ≡ none
  unfolding lookup
  lookup_others [] name h = refl
  lookup_others (lane ∷ lanes) name h =
      rw (str_eq_apart lane.lane_name name h.0) (lookup_others lanes name h.1)

  -- Of a registry that `ValidateBasic` accepts, the distribution of the transactions gives every lane
  -- the number of transactions in its mempool under the lane's name, has no other name, and its
  -- numbers sum to `CountTx`.
  pub get_tx_distribution-IsExact :
      (lanes : List (BaseLane Ctx LegacyDec M))
      → validate_registry env lanes ≡ ok tt
      → let counts = get_tx_distribution env lanes pools [] in
        All
          (λ (lane : BaseLane Ctx LegacyDec M).
            lookup lane.lane_name counts ≡ some (env.pool.count_tx (pools lane.lane_name)))
          lanes
        × ((name : String)
            → All (λ (lane : BaseLane Ctx LegacyDec M). lane.lane_name ≢ name) lanes
            → lookup name counts ≡ none)
        × (sum_counts counts ≡ count_tx_of env lanes pools)
  get_tx_distribution-IsExact lanes h =
      let names = (validate_registry-IsConfigured env laws lanes h).names in
      let e = distribution_entries lanes [] [] names (λ name none_yet. empty_lookup name) in
      rw e (lookup_entries lanes [] names, lookup_others lanes, sum_entries lanes)

-- ===== src/Tests/Mempool.antt =====
-- block/mempool.go at a concrete registry.
use block_sdk.Prelude.{
  ℕ, ◌≡◌, ◌≢◌, refl, String, none, some, List, [], ◌∷◌, All, length, ℤ, pos, ok, has_key, lookup,
  str_eq, ◌+ℤ◌, if◌then◌else◌,
}
use block_sdk.Sdk.{Tx}
use block_sdk.Base.Lane.{BaseLane}
use block_sdk.Mempool.{get_tx_distribution, count_tx_of, check_lanes, check_sum, validate_registry}
use block_sdk.Mempool.Distribution.{sum_counts, get_tx_distribution-IsExact}
use block_sdk.Mempool.Registry.{IsConfigured, validate_registry-IsConfigured}
use block_sdk.Tests.Decimals.{units_laws}
use block_sdk.Tests.Lanes.{env, cfg, lane, tx_a, tx_b}

-- a lane with half of the block, and one with the rest
abbrev lanes : List (BaseLane ℕ ℤ (List Tx))
lanes = lane ∷ record lane { lane_name = "free"; cfg = record cfg { max_block_space = pos 0 } } ∷ []

lanes_pass : validate_registry env lanes ≡ ok tt
unfolding validate_registry check_lanes check_sum has_key str_eq ◌+ℤ◌
lanes_pass = refl

validate_registry-IsConfigured_example : IsConfigured env units_laws lanes
validate_registry-IsConfigured_example =
    validate_registry-IsConfigured env units_laws lanes lanes_pass

abbrev lane_pools : String → List Tx
lane_pools name = if str_eq name "free" then tx_a ∷ tx_b ∷ [] else tx_b ∷ []

get_tx_distribution-IsExact_example :
    let counts = get_tx_distribution env lanes lane_pools [] in
    All
      (λ (l : BaseLane ℕ ℤ (List Tx)).
        lookup l.lane_name counts ≡ some (length (lane_pools l.lane_name)))
      lanes
    × ((name : String)
        → All (λ (l : BaseLane ℕ ℤ (List Tx)). l.lane_name ≢ name) lanes
        → lookup name counts ≡ none)
    × (sum_counts counts ≡ count_tx_of env lanes lane_pools)
get_tx_distribution-IsExact_example =
    get_tx_distribution-IsExact env units_laws lane_pools lanes lanes_pass

-- ===== src/Tests/Proposals.antt =====
-- block/proposals at concrete inputs.
use block_sdk.Prelude.{
  ℕ, ◌+◌, ◌/◌, ◌^◌, ◌≤◌, ◌≡◌, ◌↔◌, refl, String, List, [], ◌∷◌, ℤ, pos, ◌≤ℤ◌, ok, arith, lookup,
  has_key, str_eq, insert, add_int64, add_uint64,
}
use block_sdk.Decimal.{precision}
use block_sdk.Proposals.{Proposal, TxWithInfo, contains, get_lane_limits, new_proposal}
use block_sdk.Proposals.Update.{
  LaneInfo, update_proposal, write_update, no_totals, has_prepared, aggregate, check_limits,
}
use block_sdk.Proposals.Totals.{total_bytes, add_all}
use block_sdk.Proposals.Bounds
use block_sdk.Proposals.Bounds.{IsValid, IsAppended, Fits}
use block_sdk.Proposals.Limits
use block_sdk.Proposals.Overflow
use block_sdk.Tests.Decimals.{units_ops, units_laws}

program : Unit {0}
unfolding has_prepared aggregate check_limits new_proposal contains get_lane_limits update_proposal
    write_update lookup has_key str_eq insert add_int64 add_uint64
program = tt

-- a lane with half of the block
abbrev half_lane : LaneInfo ℤ
half_lane = record { name = "mev"; max_block_space = pos (precision / 2) }

abbrev tx : String → ℕ → TxWithInfo
tx hash gas = record {
  hash = hash;
  size = pos 3;
  gas_limit = gas;
  tx_bytes = 1 ∷ 2 ∷ 3 ∷ [];
  signers = [];
}

abbrev start : Proposal
start = new_proposal (pos 100) 1000

start-IsValid : IsValid start
unfolding program
start-IsValid = record {
  sized = refl;
  counted = refl;
  bytes_within = omega arith;
  gas_within = omega arith;
}

abbrev two : List TxWithInfo
two = tx "A" 10 ∷ tx "B" 20 ∷ []

two-IsSafe : Bounds.IsSafe start two
unfolding program
two-IsSafe = record { sizes = (refl, (refl, tt)); bytes_fit = omega arith; gas_fits = omega arith }

update_proposal-Fits_iff_example :
    ((p' : Proposal) × (update_proposal units_ops half_lane two start ≡ ok p'))
    ↔ Fits units_ops half_lane two start
update_proposal-Fits_iff_example =
    Bounds.update_proposal-Fits_iff units_ops half_lane (tx "A" 10) (tx "B" 20 ∷ []) start
      start-IsValid two-IsSafe

abbrev after : Proposal
after = write_update start "mev" 2 (add_all no_totals two)

accepted : update_proposal units_ops half_lane two start ≡ ok after
unfolding program
accepted = refl

update_proposal-IsValid_example : IsValid after × IsAppended units_ops half_lane two start after
update_proposal-IsValid_example =
    Bounds.update_proposal-IsValid units_ops half_lane two start after start-IsValid two-IsSafe
      (λ e. cc) accepted

stays_within :
    (after.info.block_size ≤ℤ start.info.max_block_size)
    × (after.info.gas_limit ≤ start.info.max_gas_limit)
stays_within =
    Bounds.update_proposal_bounds units_ops half_lane two start after start-IsValid.bytes_within
      start-IsValid.gas_within accepted

start-max : start.info.max_block_size ≡ pos 100
unfolding program
start-max = refl

half_within :
    (b : ℕ) × ((get_lane_limits units_ops start (pos (precision / 2))).max_tx_bytes ≡ pos b)
    × (b ≤ 100)
    × ((get_lane_limits units_ops start (pos (precision / 2))).max_gas_limit
        ≤ start.info.max_gas_limit)
half_within =
    Limits.get_lane_limits_bounds units_ops units_laws start (pos (precision / 2)) 100
      (precision / 2) start-IsValid start-max (omega arith) refl (omega arith)

gets_what_is_left :
    (b : ℕ) × ((get_lane_limits units_ops start (pos 0)).max_tx_bytes ≡ pos b)
    × (total_bytes start.txs + b ≡ 100)
    × (start.info.gas_limit + (get_lane_limits units_ops start (pos 0)).max_gas_limit
        ≡ start.info.max_gas_limit)
gets_what_is_left =
    Limits.get_lane_limits_remaining units_ops units_laws start (pos 0) 100 start-IsValid start-max
      (omega arith) refl

abbrev ratios : List ℤ
ratios = pos (precision / 2) ∷ pos (precision / 4) ∷ []

sum-le-max_example :
    (Limits.sum_bytes units_ops units_laws start ratios ≤ 100)
    × (Limits.sum_gas units_ops units_laws start ratios ≤ start.info.max_gas_limit)
sum-le-max_example =
    Limits.sum-le-max units_ops units_laws start 100 start-max ratios
      (precision / 2 ∷ precision / 4 ∷ []) (refl, omega arith, (refl, omega arith, tt))
      (omega arith)

update_proposal_gas_wraps_example :
    (p' : Proposal) × (update_proposal units_ops half_lane
        (tx "A" (2 ^ 63) ∷ tx "B" (2 ^ 63) ∷ [])
        start
      ≡ ok p')
    × (p'.info.gas_limit ≡ start.info.gas_limit)
unfolding program
update_proposal_gas_wraps_example =
    Overflow.update_proposal_gas_wraps units_ops half_lane (tx "A" (2 ^ 63)) (tx "B" (2 ^ 63)) start
      refl (refl, (refl, tt)) (omega arith) (omega arith) (omega arith) (omega arith) (omega arith)

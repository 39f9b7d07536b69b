-- ===== src/Proposals/Overflow.antt =====
-- `UpdateProposal` where the gas of a partial proposal passes a machine word.
use block_sdk.Prelude.{
  ◌^◌, ◌≤◌, ◌<◌, ◌≡◌, none, [], ◌∷◌, ◌≤ℤ◌, add_int64, add_uint64, All, ok, arith, lookup,
}
use block_sdk.Decimal.{DecOps}
use block_sdk.Proposals.{Proposal, TxWithInfo, get_lane_limits}
use block_sdk.Proposals.Update.{no_totals, LaneInfo, update_proposal, write_update}
use block_sdk.Proposals.Totals.{IsNew, add_all, gas_of}
use block_sdk.Proposals.Effect.{Accepts-update_proposal}

-- Two transactions that are new and fit by their bytes, whose gas limits sum to 2 ^ 64, are
-- accepted from a lane that has not prepared yet as if they consumed no gas, whatever the gas limits of the lane and of
-- the block: the gas of the proposal stays as it was.
pub update_proposal_gas_wraps :
    {LegacyDec : Type 0} (ops : DecOps LegacyDec) (lane : LaneInfo LegacyDec) (a b : TxWithInfo)
    (p : Proposal)
    → lookup lane.name p.info.txs_by_lane ≡ none
    → All (IsNew p) (a ∷ b ∷ [])
    → (add_all no_totals (a ∷ b ∷ [])).size
      ≤ℤ (get_lane_limits ops p lane.max_block_space).max_tx_bytes
    → add_int64 p.info.block_size (add_all no_totals (a ∷ b ∷ [])).size ≤ℤ p.info.max_block_size
    → p.info.gas_limit ≤ p.info.max_gas_limit
    → p.info.max_gas_limit < 2 ^ 64
    → gas_of (a ∷ b ∷ []) ≡ 2 ^ 64
    → (p' : Proposal) × (update_proposal ops lane (a ∷ b ∷ []) p ≡ ok p')
      × (p'.info.gas_limit ≡ p.info.gas_limit)
unfolding write_update add_uint64
update_proposal_gas_wraps ops lane a b p fresh new lane_bytes block_bytes within max gas = (
  write_update p lane.name 2 (add_all no_totals (a ∷ b ∷ [])),
  Accepts-update_proposal ops lane a (b ∷ []) p (record {
    fresh_lane = fresh;
    fresh_txs = new;
    passes = (lane_bytes, omega arith, block_bytes, omega arith);
  }),
  omega arith,
)

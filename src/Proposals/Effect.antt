-- ===== src/Proposals/Effect.antt =====
-- When `UpdateProposal` accepts a partial proposal, and what it then writes.
use block_sdk.Prelude.{
  ◌≤◌, ◌≡◌, ◌↔◌, subst, String, false, not, none, List, ◌∷◌, ◌≤ℤ◌, add_int64, add_uint64, length,
  All, ok, guard-eq-ok, >>=-eq-ok, arith, lookup,
}
use block_sdk.Decimal.{DecOps}
use block_sdk.Proposals.{Proposal, ProposalInfo, LaneLimits, TxWithInfo, get_lane_limits}
use block_sdk.Proposals.Update.{
  Totals, no_totals, LaneInfo, aggregate, has_prepared, check_limits, write_update, update_proposal,
}
use block_sdk.Proposals.Totals.{IsNew, add_all, aggregate_ok, aggregate-eq-ok}

pub has_prepared_iff :
    (p : Proposal) (name : String)
    → (has_prepared p name ≡ false) ↔ (lookup name p.info.txs_by_lane ≡ none)
unfolding has_prepared
has_prepared_iff p name = ground arith

-- The four comparisons of `UpdateProposal`, as one condition on the totals of the loop.
abbrev pub Passes : ProposalInfo → LaneLimits → Totals → Type 0
Passes info limit t =
    (t.size ≤ℤ limit.max_tx_bytes)
    × (t.gas ≤ limit.max_gas_limit)
    × (add_int64 info.block_size t.size ≤ℤ info.max_block_size)
    × (add_uint64 info.gas_limit t.gas ≤ info.max_gas_limit)

pub check_limits_iff :
    (info : ProposalInfo) (limit : LaneLimits) (t : Totals)
    → (check_limits info limit t ≡ ok tt) ↔ Passes info limit t
unfolding check_limits
check_limits_iff info limit t = ground arith

module _ {LegacyDec : Type 0} (ops : DecOps LegacyDec) (lane : LaneInfo LegacyDec) where
  -- What the checks ask, with the totals that the machine computes.
  pub record Accepts (partial : List TxWithInfo) (p : Proposal) : Type 0 where
    pub fresh_lane : lookup lane.name p.info.txs_by_lane ≡ none
    pub fresh_txs : All (IsNew p) partial
    pub passes :
        Passes p.info (get_lane_limits ops p lane.max_block_space) (add_all no_totals partial)

  pub update_proposal-Accepts :
      (tx : TxWithInfo) (txs : List TxWithInfo) (p : Proposal) {p' : Proposal}
      → update_proposal ops lane (tx ∷ txs) p ≡ ok p'
      → Accepts (tx ∷ txs) p
        × (p' ≡ write_update p lane.name (length (tx ∷ txs)) (add_all no_totals (tx ∷ txs)))
  unfolding update_proposal
  update_proposal-Accepts tx txs p {p'} h =
      let (unprepared, h₁) = guard-eq-ok (not (has_prepared p lane.name)) _ _ h in
      let (t, looped, h₂) = >>=-eq-ok (aggregate p (tx ∷ txs) no_totals) _ h₁ in
      let limit = get_lane_limits ops p lane.max_block_space in
      let (u, checked, h₃) = >>=-eq-ok (check_limits p.info limit t) _ h₂ in
      let (fresh, e) = aggregate-eq-ok p (tx ∷ txs) no_totals looped in
      (
        record {
          fresh_lane = (has_prepared_iff p lane.name).0 (ground arith);
          fresh_txs = fresh;
          passes = subst (Passes p.info limit) e ((check_limits_iff p.info limit t).0 checked);
        },
        ground arith,
      )

  pub Accepts-update_proposal :
      (tx : TxWithInfo) (txs : List TxWithInfo) (p : Proposal)
      → Accepts (tx ∷ txs) p
      → update_proposal ops lane (tx ∷ txs) p
        ≡ ok (write_update p lane.name (length (tx ∷ txs)) (add_all no_totals (tx ∷ txs)))
  unfolding update_proposal
  Accepts-update_proposal tx txs p a = rw (
    (has_prepared_iff p lane.name).1 a.fresh_lane,
    aggregate_ok p (tx ∷ txs) no_totals a.fresh_txs,
    (check_limits_iff p.info (get_lane_limits ops p lane.max_block_space)
          (add_all no_totals (tx ∷ txs))).1
        a.passes,
  )

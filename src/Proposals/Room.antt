-- ===== src/Proposals/Room.antt =====
-- block/proposals: `UpdateProposal` where the block has more room.
use block_sdk.Prelude.{
  ℕ, zero, suc, ◌*◌, ◌^◌, ◌≤◌, ◌<◌, ◌≡◌, refl, sym, ap, ◌∙◌, subst, List, [], ◌∷◌, pos, ◌≤ℤ◌, ok,
  ok-injective, arith,
}
use block_sdk.Decimal.{DecOps, DecLaws}
use block_sdk.Proposals.{Proposal, TxWithInfo, contains, get_lane_limits}
use block_sdk.Proposals.Update.{LaneInfo, no_totals, update_proposal, write_update}
use block_sdk.Proposals.Totals.{add_all}
use block_sdk.Proposals.Effect.{Accepts, update_proposal-Accepts, Accepts-update_proposal}
use block_sdk.Proposals.Bounds.{IsValid}
use block_sdk.Proposals.Limits.{share, zero_limits, ratio_limits}

-- the proposal in a block of `m` bytes
abbrev pub with_max : Proposal → ℕ → Proposal
with_max p m = record p { info = record p.info { max_block_size = pos m } }

mul_mono_right : (u m n : ℕ) → m ≤ n → u * m ≤ u * n
mul_mono_right u m n h = grind arith

share_mono : (u m n : ℕ) → m ≤ n → share u m ≤ share u n
share_mono u m n h = omega (arith, mul_mono_right u m n h)

with_max-IsValid :
    (p : Proposal) (m n : ℕ)
    → IsValid p
    → p.info.max_block_size ≡ pos m
    → m ≤ n
    → IsValid (with_max p n)
with_max-IsValid p m n valid e h = record {
  sized = valid.sized;
  counted = valid.counted;
  bytes_within = ground (arith, valid.bytes_within);
  gas_within = valid.gas_within;
}

module _ {LegacyDec : Type 0} (ops : DecOps LegacyDec) (laws : DecLaws ops) where
  -- More room raises the limit of bytes of every lane, and leaves its limit of gas.
  limits_mono :
      (p : Proposal) (ratio : LegacyDec) (m n u : ℕ)
      → IsValid p
      → p.info.max_block_size ≡ pos m
      → m ≤ n
      → n < 2 ^ 63
      → laws.units ratio ≡ pos u
      → ((get_lane_limits ops p ratio).max_tx_bytes
          ≤ℤ (get_lane_limits ops (with_max p n) ratio).max_tx_bytes)
        × ((get_lane_limits ops p ratio).max_gas_limit
            ≡ (get_lane_limits ops (with_max p n) ratio).max_gas_limit)
  limits_mono p ratio m n zero valid e h small d =
      let before = zero_limits ops laws p ratio m valid e (omega arith) d in
      let after =
        zero_limits ops laws (with_max p n) ratio n (with_max-IsValid p m n valid e h) refl small
          d in
      (ground (arith, before, after), before.1 ∙ sym after.1)
  limits_mono p ratio m n (suc u) valid e h small d =
      let before = ratio_limits ops laws p ratio m (suc u) e d (omega arith) in
      let after = ratio_limits ops laws (with_max p n) ratio n (suc u) refl d (omega arith) in
      let more = share_mono (suc u) m n h in
      (
        subst (λ a. a ≤ℤ (get_lane_limits ops (with_max p n) ratio).max_tx_bytes) (sym before.0)
            (subst (λ b. pos (share (suc u) m) ≤ℤ b) (sym after.0) (omega arith)),
        before.1 ∙ sym after.1,
      )

  -- What `UpdateProposal` accepts it accepts in a larger block, with the same result.
  pub update_proposal-with_max :
      (lane : LaneInfo LegacyDec) (infos : List TxWithInfo) (p p' : Proposal) (m n u : ℕ)
      → IsValid p
      → p.info.max_block_size ≡ pos m
      → m ≤ n
      → n < 2 ^ 63
      → laws.units lane.max_block_space ≡ pos u
      → update_proposal ops lane infos p ≡ ok p'
      → update_proposal ops lane infos (with_max p n) ≡ ok (with_max p' n)
  unfolding update_proposal write_update contains
  update_proposal-with_max lane [] p p' m n u valid e h small d done =
      ap (λ q. ok (with_max q n)) (ok-injective p p' done)
  update_proposal-with_max lane (tx ∷ txs) p p' m n u valid e h small d done =
      let (a, written) = update_proposal-Accepts ops lane tx txs p done in
      let (bytes, gas) = limits_mono p lane.max_block_space m n u valid e h small d in
      let passes = a.passes in
      let bigger : Accepts ops lane (tx ∷ txs) (with_max p n) = record {
        fresh_lane = a.fresh_lane;
        fresh_txs = a.fresh_txs;
        passes = (
          ground (arith, passes, bytes),
          subst (λ g. (add_all no_totals (tx ∷ txs)).gas ≤ g) gas passes.1,
          ground (arith, passes),
          passes.3,
        );
      } in
      Accepts-update_proposal ops lane tx txs (with_max p n) bigger
      ∙ ap (λ q. ok (with_max q n)) (sym written)

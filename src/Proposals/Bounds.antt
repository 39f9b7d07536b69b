-- ===== src/Proposals/Bounds.antt =====
-- `UpdateProposal` in numbers that do not wrap round: the conditions that it checks, and the
-- invariant of a proposal.
use block_sdk.Prelude.{
  ℕ, suc, ◌+◌, ◌^◌, ◌≤◌, ◌<◌, ◌≡◌, ◌≢◌, ◌↔◌, refl, sym, ap, ◌∙◌, subst, String, none, some, ◌||◌,
  if◌then◌else◌, List, [], ◌∷◌, ◌++◌, pos, ◌≤ℤ◌, add_int64, add_uint64, add_int64_exact,
  add_uint64_exact, length, length-append, All, ok, arith, has_key, has_key-append, lookup, insert,
  lookup-insert, str_eq,
}
use block_sdk.Decimal.{DecOps}
use block_sdk.Proposals.{Proposal, TxWithInfo, Bytes, contains, get_lane_limits}
use block_sdk.Proposals.Update.{Totals, no_totals, LaneInfo, write_update, update_proposal}
use block_sdk.Proposals.Totals.{
  hashes_of, bytes_of, total_bytes, gas_of, total_bytes-append, IsSized, IsNew, add_all,
  add_all_exact, txs-add_all,
}
use block_sdk.Proposals.Effect.{Accepts, update_proposal-Accepts, Accepts-update_proposal}

abbrev pub sum_counts : List (String × ℕ) → ℕ
sum_counts [] = 0
sum_counts ((_, n) ∷ m) = n + sum_counts m

sum_counts-insert :
    (k : String) (n : ℕ) (m : List (String × ℕ))
    → lookup k m ≡ none
    → sum_counts (insert k n m) ≡ n + sum_counts m
unfolding lookup insert
sum_counts-insert k n [] h = refl
sum_counts-insert k n ((j, v) ∷ m) h = ground (arith, sum_counts-insert k n m)

has_key-add_all :
    (h : String) (txs : List TxWithInfo) (t : Totals)
    → has_key h (add_all t txs).hashes ≡ (has_key h (hashes_of txs) || has_key h t.hashes)
unfolding has_key
has_key-add_all h [] t = refl
has_key-add_all h (tx ∷ txs) t = ground (
  arith,
  has_key-add_all h txs (record {
    hashes = tx.hash ∷ t.hashes;
    txs = t.txs ++ tx.tx_bytes ∷ [];
    size = add_int64 t.size tx.size;
    gas = add_uint64 t.gas tx.gas_limit;
  }),
)

length-bytes_of : (txs : List TxWithInfo) → length (bytes_of txs) ≡ length txs
length-bytes_of [] = refl
length-bytes_of (tx ∷ txs) = ap suc (length-bytes_of txs)

-- The proposal's counters agree with its contents and are within its limits.
pub record IsValid (p : Proposal) : Type 0 where
  pub sized : p.info.block_size ≡ pos (total_bytes p.txs)
  pub counted : sum_counts p.info.txs_by_lane ≡ length p.txs
  pub bytes_within : p.info.block_size ≤ℤ p.info.max_block_size
  pub gas_within : p.info.gas_limit ≤ p.info.max_gas_limit

-- The sums that an update makes stay within the words of the machine.
pub record IsSafe (p : Proposal) (partial : List TxWithInfo) : Type 0 where
  pub sizes : All IsSized partial
  pub bytes_fit : total_bytes p.txs + total_bytes (bytes_of partial) < 2 ^ 63
  pub gas_fits : p.info.gas_limit + gas_of partial < 2 ^ 64

module _ {LegacyDec : Type 0} (ops : DecOps LegacyDec) (lane : LaneInfo LegacyDec) where
  -- What the function checks, in the order of its comment. The comment says that the sums must be
  -- less than the limits, and the code accepts a sum that is equal to its limit; the transactions are
  -- compared with those of the proposal from before, not with one another.
  pub record Fits (partial : List TxWithInfo) (p : Proposal) : Type 0 where
    pub block_bytes :
        pos (total_bytes p.txs + total_bytes (bytes_of partial)) ≤ℤ p.info.max_block_size
    pub lane_bytes :
        pos (total_bytes (bytes_of partial))
        ≤ℤ (get_lane_limits ops p lane.max_block_space).max_tx_bytes
    pub block_gas : p.info.gas_limit + gas_of partial ≤ p.info.max_gas_limit
    pub lane_gas : gas_of partial ≤ (get_lane_limits ops p lane.max_block_space).max_gas_limit
    pub fresh_lane : lookup lane.name p.info.txs_by_lane ≡ none
    pub fresh_txs : All (IsNew p) partial

  -- What an accepted partial proposal does to the proposal.
  pub record IsAppended (partial : List TxWithInfo) (p p' : Proposal) : Type 0 where
    pub txs : p'.txs ≡ p.txs ++ bytes_of partial
    pub cache : (h : String) → contains p' h ≡ (has_key h (hashes_of partial) || contains p h)
    pub lanes :
        (name : String)
        → lookup name p'.info.txs_by_lane ≡ (
            if str_eq lane.name name then some (length partial) else lookup name p.info.txs_by_lane)
    pub block_size : p'.info.block_size ≡ pos (total_bytes p.txs + total_bytes (bytes_of partial))
    pub gas_limit : p'.info.gas_limit ≡ p.info.gas_limit + gas_of partial
    pub max_block_size : p'.info.max_block_size ≡ p.info.max_block_size
    pub max_gas_limit : p'.info.max_gas_limit ≡ p.info.max_gas_limit

  module _ (partial : List TxWithInfo) (p : Proposal) (valid : IsValid p)
      (safe : IsSafe p partial) where
    -- the proposal after the writes of an accepted partial proposal
    abbrev written : Proposal
    written = write_update p lane.name (length partial) (add_all no_totals partial)

    sums_exact :
        ((add_all no_totals partial).size ≡ pos (total_bytes (bytes_of partial)))
        × ((add_all no_totals partial).gas ≡ gas_of partial)
        × (add_int64 p.info.block_size (add_all no_totals partial).size
            ≡ pos (total_bytes p.txs + total_bytes (bytes_of partial)))
        × (add_uint64 p.info.gas_limit (add_all no_totals partial).gas
            ≡ p.info.gas_limit + gas_of partial)
    sums_exact = ground (
      arith,
      add_all_exact partial no_totals 0 safe.sizes refl,
      add_int64_exact (total_bytes p.txs) (total_bytes (bytes_of partial)),
      add_uint64_exact p.info.gas_limit (gas_of partial),
    )

    pub Fits-Accepts : Fits partial p → Accepts ops lane partial p
    Fits-Accepts f = record {
      fresh_lane = f.fresh_lane;
      fresh_txs = f.fresh_txs;
      passes = ground (arith, sums_exact);
    }

    pub Accepts-Fits : Accepts ops lane partial p → Fits partial p
    Accepts-Fits a = ground (arith, sums_exact, a.passes)

    written-IsAppended : IsAppended partial p written
    unfolding write_update lookup contains has_key
    written-IsAppended =
        let (size, gas, bytes, total_gas) = sums_exact in
        record {
          txs = ap (λ (l : List Bytes). p.txs ++ l) (txs-add_all partial no_totals);
          cache =
              λ h. has_key-append h _ p.cache ∙ ground (arith, has_key-add_all h partial no_totals);
          lanes = λ name. lookup-insert lane.name name (length partial) p.info.txs_by_lane;
          block_size = bytes;
          gas_limit = total_gas;
          max_block_size = refl;
          max_gas_limit = refl;
        }

    written-IsValid : Accepts ops lane partial p → IsValid written
    unfolding write_update
    written-IsValid a =
        let (size, gas, bytes, total_gas) = sums_exact in
        record {
          sized =
              bytes
              ∙ ap pos (
                  sym (total_bytes-append p.txs (bytes_of partial))
                  ∙ ap (λ l. total_bytes (p.txs ++ l)) (sym (txs-add_all partial no_totals)));
          counted = omega (
            arith,
            sum_counts-insert lane.name (length partial) p.info.txs_by_lane a.fresh_lane,
            length-append p.txs (add_all no_totals partial).txs,
            ap length (txs-add_all partial no_totals),
            length-bytes_of partial,
            valid.counted,
          );
          bytes_within = a.passes.2;
          gas_within = a.passes.3;
        }

  -- On a valid proposal, and where no sum passes its machine word, `UpdateProposal` accepts a
  -- partial proposal that is not empty exactly when the true sums of the bytes and of the gas, of
  -- the block and of the lane, are at most their limits, the lane has not prepared a partial
  -- proposal yet, and none of the transactions is in the proposal from before the call.
  pub update_proposal-Fits_iff :
      (tx : TxWithInfo) (txs : List TxWithInfo) (p : Proposal)
      → IsValid p
      → IsSafe p (tx ∷ txs)
      → ((p' : Proposal) × (update_proposal ops lane (tx ∷ txs) p ≡ ok p')) ↔ Fits (tx ∷ txs) p
  update_proposal-Fits_iff tx txs p valid safe = (
    λ accepted.
        Accepts-Fits (tx ∷ txs) p valid safe
          (update_proposal-Accepts ops lane tx txs p accepted.1).0,
    λ fits.
        (_, Accepts-update_proposal ops lane tx txs p (Fits-Accepts (tx ∷ txs) p valid safe fits)),
  )

  -- On a valid proposal, and where no sum passes its machine word, a proposal that `UpdateProposal`
  -- returns is valid again. It has the transactions of the partial proposal at the end, their
  -- hashes in the cache, their number under the name of the lane, and the block size and gas limit
  -- grown by theirs; the two maxima, the other lanes and the other hashes are as before.
  pub update_proposal-IsValid :
      (partial : List TxWithInfo) (p p' : Proposal)
      → IsValid p
      → IsSafe p partial
      → partial ≢ []
      → update_proposal ops lane partial p ≡ ok p'
      → IsValid p' × IsAppended partial p p'
  update_proposal-IsValid [] p p' valid safe nonempty h = absurd (nonempty refl)
  update_proposal-IsValid (tx ∷ txs) p p' valid safe nonempty h =
      let (accepts, e) = update_proposal-Accepts ops lane tx txs p h in
      (
        subst IsValid (sym e) (written-IsValid (tx ∷ txs) p valid safe accepts),
        subst (IsAppended (tx ∷ txs) p) (sym e) (written-IsAppended (tx ∷ txs) p valid safe),
      )

  -- Whatever the sums do, a proposal that `UpdateProposal` returns is within the limits of the
  -- block if the one that it was given was, by the counters that the machine computes.
  pub update_proposal_bounds :
      (partial : List TxWithInfo) (p p' : Proposal)
      → p.info.block_size ≤ℤ p.info.max_block_size
      → p.info.gas_limit ≤ p.info.max_gas_limit
      → update_proposal ops lane partial p ≡ ok p'
      → (p'.info.block_size ≤ℤ p.info.max_block_size) × (p'.info.gas_limit ≤ p.info.max_gas_limit)
  unfolding update_proposal write_update
  update_proposal_bounds [] p p' bytes gas h = ground arith
  update_proposal_bounds (tx ∷ txs) p p' bytes gas h =
      let (accepts, e) = update_proposal-Accepts ops lane tx txs p h in
      ground (arith, accepts.passes)

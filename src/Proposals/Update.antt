-- ===== src/Proposals/Update.antt =====
-- block/proposals/update.go: `UpdateProposal`.
use block_sdk.Prelude.{
  ℕ, String, Bool, true, false, not, none, some, List, [], ◌∷◌, ◌++◌, ℤ, pos, leb, leb_ℤ,
  if◌then◌else◌, add_int64, add_uint64, length, lookup, insert, Result, ok, err, ◌>>=◌, ◌>>◌, guard,
}
use block_sdk.Decimal.{DecOps}
use block_sdk.Proposals.{
  Bytes, Proposal, ProposalInfo, LaneLimits, TxWithInfo, contains, get_lane_limits,
}

-- One constructor for each `fmt.Errorf` of `UpdateProposal`.
pub data UpdateError : Type 0 where
  already_prepared already_in_proposal : String → UpdateError
  partial_too_large partial_too_much_gas block_too_large block_too_much_gas : UpdateError

-- The interface `Lane` of update.go.
pub record LaneInfo (LegacyDec : Type 0) : Type 0 where
  pub name : String
  pub max_block_space : LegacyDec

-- The variables of the loop over the partial proposal.
pub record Totals : Type 0 where
  pub hashes : List String
  pub txs : List Bytes
  pub size : ℤ
  pub gas : ℕ

abbrev pub no_totals : Totals
no_totals = record { hashes = []; txs = []; size = pos 0; gas = 0 }

-- One round of the loop.
abbrev pub add_tx : Totals → TxWithInfo → Totals
add_tx t tx = record {
  hashes = tx.hash ∷ t.hashes;
  txs = t.txs ++ tx.tx_bytes ∷ [];
  size = add_int64 t.size tx.size;
  gas = add_uint64 t.gas tx.gas_limit;
}

unfoldable pub aggregate : Proposal → List TxWithInfo → Totals → Result UpdateError Totals
aggregate p [] t = ok t
aggregate p (tx ∷ txs) t =
    let rest = aggregate p txs (add_tx t tx) in
    if contains p tx.hash then err (already_in_proposal tx.hash) else rest

-- The writes at the end of the function.
unfoldable pub write_update : Proposal → String → ℕ → Totals → Proposal
write_update p name count t = record {
  txs = p.txs ++ t.txs;
  cache = t.hashes ++ p.cache;
  info = record p.info {
    block_size = add_int64 p.info.block_size t.size;
    gas_limit = add_uint64 p.info.gas_limit t.gas;
    txs_by_lane = insert name count p.info.txs_by_lane;
  };
}

-- The four comparisons with the limits, in the order of the source.
unfoldable pub check_limits : ProposalInfo → LaneLimits → Totals → Result UpdateError Unit
check_limits info limit t = do
  guard (leb_ℤ t.size limit.max_tx_bytes) partial_too_large
  guard (leb t.gas limit.max_gas_limit) partial_too_much_gas
  guard (leb_ℤ (add_int64 info.block_size t.size) info.max_block_size) block_too_large
  guard (leb (add_uint64 info.gas_limit t.gas) info.max_gas_limit) block_too_much_gas

-- `_, ok := p.Info.TxsByLane[lane.Name()]`
unfoldable pub has_prepared : Proposal → String → Bool
has_prepared p name = elim (lookup name p.info.txs_by_lane) [ none ↦ false | some _ ↦ true ]

module _ {LegacyDec : Type 0} (ops : DecOps LegacyDec) where
  unfoldable pub update_proposal :
      LaneInfo LegacyDec → List TxWithInfo → Proposal → Result UpdateError Proposal
  update_proposal lane [] p = ok p
  update_proposal lane (tx ∷ txs) p = do
    guard (not (has_prepared p lane.name)) (already_prepared lane.name)
    t ← aggregate p (tx ∷ txs) no_totals
    check_limits p.info (get_lane_limits ops p lane.max_block_space) t
    ok (write_update p lane.name (length (tx ∷ txs)) t)

-- ===== src/Mev/Verifier.antt =====
-- lanes/mev/abci.go: the `ProcessLaneHandler` of the auction lane does not read the lane's mempool.
use block_sdk.Prelude.{
  ◌≡◌, refl, false, List, [], ◌∷◌, length, take, drop, ok, guard, ◌>>=◌, ◌>>◌, leb, not, map_err,
  if◌then◌else◌,
}
use block_sdk.Proposals.{Bytes}
use block_sdk.Sdk.{Tx}
use block_sdk.Base.{
  Env, LaneCore, belongs_to_lane, encode_failed, handler_failed, verify_tx, verify_no_matches,
}
use block_sdk.Mev.{Factory}
use block_sdk.Mev.Proposal.{
  bytes_eq, get_bid_info, verify_bundle, verify_bid_tx, match_bundle, process_bid, pass_by,
  process_auction,
}

module _ {Ctx LegacyDec M : Type 0} (env : Env Ctx LegacyDec M) (factory : Factory)
    (lane : LaneCore Ctx LegacyDec M) (other : M) where
  -- The same lane at a node with another mempool.
  abbrev pub elsewhere : LaneCore Ctx LegacyDec M
  elsewhere = record lane { mempool = other }

  verify_bundle-elsewhere :
      (ctx : Ctx) (txs : List Tx)
      → verify_bundle env factory elsewhere ctx txs ≡ verify_bundle env factory lane ctx txs
  unfolding verify_bundle verify_tx
  verify_bundle-elsewhere ctx [] = refl
  verify_bundle-elsewhere ctx (tx ∷ txs) = λ i.
      guard (not (lane.match_handler ctx tx)) belongs_to_lane
      >> (verify_tx env lane ctx tx false >>= λ c. verify_bundle-elsewhere c txs i)

  match_bundle-elsewhere :
      (bzs : List Bytes) (txs : List Tx)
      → match_bundle env factory elsewhere bzs txs ≡ match_bundle env factory lane bzs txs
  unfolding match_bundle
  match_bundle-elsewhere [] txs = refl
  match_bundle-elsewhere (bz ∷ bzs) [] = refl
  match_bundle-elsewhere (bz ∷ bzs) (tx ∷ txs) = λ i.
      map_err handler_failed (factory.wrap_bundle_transaction bz) >>= λ expected.
      map_err encode_failed (lane.cfg.tx_encoder expected) >>= λ expected_bz.
      map_err encode_failed (lane.cfg.tx_encoder tx) >>= λ actual_bz.
      guard (bytes_eq actual_bz expected_bz) (handler_failed "bundled tx does not match")
      >> match_bundle-elsewhere bzs txs i

  verify_no_matches-elsewhere :
      (ctx : Ctx) (txs : List Tx)
      → verify_no_matches env elsewhere ctx txs ≡ verify_no_matches env lane ctx txs
  unfolding verify_no_matches
  verify_no_matches-elsewhere ctx [] = refl
  verify_no_matches-elsewhere ctx (tx ∷ txs) = rw (verify_no_matches-elsewhere ctx txs) refl

  pub process_auction-elsewhere :
      (ctx : Ctx) (txs : List Tx)
      → process_auction env factory elsewhere ctx txs ≡ process_auction env factory lane ctx txs
  unfolding process_auction process_bid pass_by verify_bid_tx get_bid_info verify_tx
  process_auction-elsewhere ctx [] = refl
  process_auction-elsewhere ctx (tx ∷ txs) = λ i.
      if lane.match_handler ctx tx
      then (get_bid_info env factory lane tx >>= λ info.
          guard (leb (length info.transactions) (length txs))
            (handler_failed "bundled transactions are missing")
          >> (match_bundle-elsewhere info.transactions (take (length info.transactions) txs) i
              >> ((get_bid_info env factory lane tx >>= λ known.
                    verify_tx env lane ctx tx false >>= λ c.
                    verify_bundle-elsewhere c (take (length info.transactions) txs) i)
                  >>= λ c. ok (
                    tx ∷ take (length info.transactions) txs,
                    drop (length info.transactions) txs,
                    c,
                  ))))
      else (verify_no_matches-elsewhere ctx txs i >> ok ([], tx ∷ txs, ctx))

-- ===== src/Tests/Progress.antt =====
-- block/base/proposals.go: the transaction at the front of the mempool, before one of another lane.
use block_sdk.Prelude.{◌≡◌, refl, List, [], ◌∷◌, ◌++◌, All, pos, arith, has_key}
use block_sdk.Proposals.{TxWithInfo, contains, new_proposal}
use block_sdk.Proposals.Totals.{IsNew}
use block_sdk.Sdk.{Tx}
use block_sdk.Base.{get_tx_info, verify_tx}
use block_sdk.Base.Select.{default_prepare_lane_handler}
use block_sdk.Base.Selection.{Admits, AreInfos}
use block_sdk.Base.Progress.{default_prepare_lane_handler_progress}
use block_sdk.Tests.Lanes.{env, core, start, limit, tx_a, tx_b}

abbrev infos : List TxWithInfo
infos = record { hash = "A"; size = pos 1; gas_limit = 10; tx_bytes = 1 ∷ []; signers = [] } ∷ []

admitted : Admits env core 0 (tx_a ∷ []) 1
unfolding Admits verify_tx
admitted = (refl, 1, refl, refl)

described : AreInfos env core (tx_a ∷ []) infos
unfolding AreInfos get_tx_info
described = (refl, tt)

new : All (IsNew start) infos
unfolding contains has_key new_proposal
new = (refl, tt)

default_prepare_lane_handler_progress_example :
    (more : List Tx) × ((default_prepare_lane_handler env core 0 start limit).to_include
      ≡ (tx_a ∷ []) ++ more)
default_prepare_lane_handler_progress_example =
    default_prepare_lane_handler_progress env core start limit 50 refl (omega arith) (omega arith) 0
      1 (tx_a ∷ []) (tx_b ∷ []) infos refl admitted described new (omega arith) (omega arith)

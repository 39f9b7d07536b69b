-- ===== src/Tests/Decoder.antt =====
-- block/utils/decoder.go at a cache of two transactions.
use block_sdk.Prelude.{
  zero, suc, ◌≤◌, ◌≡◌, refl, sym, ap, ◌∙◌, All, String, false, true, some, List, [], ◌∷◌, map,
  lookup, insert, delete, Result, ok, err, str_eq, arith, if◌then◌else◌,
}
use block_sdk.Proposals.{Bytes}
use block_sdk.Sdk.{Tx}
use block_sdk.Utils.Decoder.{
  CacheTxDecoder, decode_panic, new_cache_tx_decoder, purge_entry, purge, write_entry, store_tx,
  tx_decoder, decoder_len, decoder_contains,
}
use block_sdk.Utils.Decoder.Queue.{queue_decode}
use block_sdk.Utils.Decoder.Run.{run_decoder, run_queue, run_decoder-run_queue}
use block_sdk.Utils.Decoder.Transparency.{decode_directly, run_decoder-decode_directly}
use block_sdk.Utils.Decoder.Retention.{decoder_contains-run}
use block_sdk.Tests.Lanes.{tx_of}

abbrev digest : Bytes → String
digest [] = "none"
digest (zero ∷ bs) = "zero"
digest (suc zero ∷ bs) = "one"
digest (suc (suc n) ∷ bs) = "more"

abbrev plain : Bytes → Result String Tx
plain [] = err "empty"
plain (b ∷ bs) = ok (tx_of (b ∷ bs) b)

abbrev fresh : CacheTxDecoder
fresh = record {
  cache = [];
  window = "" ∷ "" ∷ [];
  insert_index = 0;
  oldest_index = 0;
  max_size = 2;
}

abbrev calls : List Bytes
calls = (0 ∷ []) ∷ (1 ∷ []) ∷ [] ∷ (1 ∷ []) ∷ (2 ∷ []) ∷ (0 ∷ []) ∷ []

program : Unit {0}
unfolding new_cache_tx_decoder purge_entry purge write_entry store_tx tx_decoder decoder_len
    decoder_contains queue_decode run_decoder run_queue decode_directly lookup insert delete str_eq
program = tt

made : new_cache_tx_decoder (some plain) 2 ≡ ok fresh
unfolding program
made = refl

-- The first transaction has left the cache, and is decoded anew.
last_state : (run_decoder digest plain calls fresh).1.window ≡ "more" ∷ "zero" ∷ []
unfolding program
last_state = refl

-- With no room at all the window has no index 0.
no_room :
    (tx_decoder digest plain (1 ∷ []) (record fresh { window = []; max_size = 0 })).0 ≡ decode_panic
unfolding program
no_room = refl

run_decoder-run_queue_example :
    let (results, ctd) = run_decoder digest plain calls fresh in
    ((results, ctd.cache) ≡ run_queue digest plain 2 calls []) × (decoder_len ctd ≤ 2)
run_decoder-run_queue_example = run_decoder-run_queue digest plain 2 fresh calls (omega arith) made

-- the byte strings that the hash tells apart
abbrev undo : String → Bytes
undo name =
    if str_eq name "none"
    then []
    else if str_eq name "zero"
    then 0 ∷ []
    else if str_eq name "one"
    then 1 ∷ []
    else 2 ∷ []

abbrev IsKnown : Bytes → Type 0
IsKnown bs = undo (digest bs) ≡ bs

no_collision : (a b : Bytes) → IsKnown a → IsKnown b → digest a ≡ digest b → a ≡ b
no_collision a b known_a known_b same = sym known_a ∙ ap undo same ∙ known_b

calls-IsKnown : All IsKnown calls
unfolding program
calls-IsKnown = (refl, (refl, (refl, (refl, (refl, (refl, tt))))))

run_decoder-decode_directly_example :
    (run_decoder digest plain calls fresh).0 ≡ map (decode_directly plain) calls
run_decoder-decode_directly_example =
    run_decoder-decode_directly digest plain IsKnown no_collision 2 fresh calls (omega arith) made
      calls-IsKnown

absent :
    decoder_contains digest (2 ∷ []) (run_decoder digest plain ((0 ∷ []) ∷ (1 ∷ []) ∷ []) fresh).1
    ≡ false
unfolding program
absent = refl

decoder_contains-run_example :
    decoder_contains digest
      (2 ∷ [])
      (run_decoder digest plain
        ((0 ∷ []) ∷ [])
        (tx_decoder digest plain
          (2 ∷ [])
          (run_decoder digest plain ((0 ∷ []) ∷ (1 ∷ []) ∷ []) fresh).1).1).1
    ≡ true
decoder_contains-run_example =
    decoder_contains-run digest plain 2 fresh ((0 ∷ []) ∷ (1 ∷ []) ∷ []) ((0 ∷ []) ∷ []) (2 ∷ [])
      (tx_of (2 ∷ []) 2) (omega arith) made refl absent (omega arith)

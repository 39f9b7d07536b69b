-- ===== src/Tests/Replay.antt =====
-- abci at a concrete application: two lanes, for transactions of one byte and of two bytes, and an
-- encoder that the decoder inverts.
use block_sdk.Prelude.{
  inl, inr, ℕ, suc, ◌/◌, ◌≡◌, refl, ap, String, true, false, none, some, Option, List, [], ◌∷◌, ℤ,
  pos, Result, ok, err, ok-injective, arith, All, length, ◌==◌, sym,
}
use block_sdk.Decimal.{precision}
use block_sdk.Proposals.{Bytes, BlockParams, SignerData, get_block_limits, new_proposal}
use block_sdk.Sdk.{Tx, Msg}
use block_sdk.Base.{Env, LaneConfig}
use block_sdk.Base.Process.{in_order}
use block_sdk.Base.RoundTrip.{Pairs, Precedes}
use block_sdk.Base.Lane.{BaseLane, Lane, base, World, core_of, default_prepare, default_process}
use block_sdk.Abci.{prepare_proposal_handler, process_proposal_handler}
use block_sdk.Abci.Chain.{AllLanes}
use block_sdk.Abci.Coherent.{IsCoherent, AreApart}
use block_sdk.Abci.Contract.{default-IsCoherent}
use block_sdk.Abci.Default.{IsDefault}
use block_sdk.Abci.Handlers.{Inverts, process_proposal_handler-prepare_proposal_handler}
use block_sdk.Abci.Replay.{IsReplayed, chain_process_lanes-chain_prepare_lanes}
use block_sdk.Tests.Decimals.{units_ops, units_laws}
use block_sdk.Tests.Lanes.{pools, tx_of}

abbrev name_by_size : Bytes → String
name_by_size [] = "none"
name_by_size (a ∷ []) = "one"
name_by_size (a ∷ b ∷ []) = "two"
name_by_size (a ∷ b ∷ c ∷ bytes) = "three"

abbrev env : Env ℕ ℤ (List Tx)
env = record { hash = name_by_size; ops = units_ops; pool = pools }

-- the gas and the body of a plain transaction
abbrev encode_fields :
    List Msg
    → Option ℕ
    → Option ℕ
    → Option (Result String (List SignerData))
    → Bytes
    → Result String Bytes
encode_fields [] (some gas) none none body = ok (gas ∷ body)
encode_fields _ _ _ _ _ = err "not a plain transaction"

abbrev encode : Tx → Result String Bytes
encode tx = encode_fields tx.msgs tx.fee_gas tx.timeout tx.signatures tx.body

abbrev decode : Bytes → Result String Tx
decode [] = err "empty"
decode (gas ∷ body) = ok (tx_of body gas)

decode-encode_fields :
    (msgs : List Msg) (gas timeout : Option ℕ)
    (signatures : Option (Result String (List SignerData))) (body bytes : Bytes)
    → encode_fields msgs gas timeout signatures body ≡ ok bytes
    → decode bytes
      ≡ ok (record {
        msgs = msgs;
        fee_gas = gas;
        timeout = timeout;
        signatures = signatures;
        body = body;
      })
decode-encode_fields [] (some gas) none none body bytes h =
    ap decode (ok-injective bytes (gas ∷ body) (sym h))
decode-encode_fields [] (some gas) none (some s) body bytes h = cc
decode-encode_fields [] (some gas) (some t) s body bytes h = cc
decode-encode_fields [] none t s body bytes h = cc
decode-encode_fields (m ∷ msgs) gas t s body bytes h = cc

decode-Inverts : Inverts decode encode
decode-Inverts tx bytes h =
    decode-encode_fields tx.msgs tx.fee_gas tx.timeout tx.signatures tx.body bytes h

abbrev config : LaneConfig ℕ ℤ
config = record {
  tx_encoder = encode;
  tx_decoder = decode;
  ante_handler = some (λ ctx tx simulate. ok (suc ctx));
  get_signers = λ tx. ok [];
  max_block_space = pos (precision / 2);
}

-- the lane of the transactions of so many bytes
abbrev lane_for : String → ℕ → BaseLane ℕ ℤ (List Tx)
lane_for name size = record {
  cfg = config;
  lane_name = name;
  match_handler = λ ctx tx. length tx.body == size;
  prepare_lane_handler = default_prepare env;
  process_lane_handler = default_process env;
}

abbrev chain : List (Lane ℕ ℤ (List Tx))
chain = base (lane_for "short" 1) ∷ base (lane_for "long" 2) ∷ []

abbrev Owns : BaseLane ℕ ℤ (List Tx) → Tx → Type 0
Owns lane tx = lane.match_handler 0 tx ≡ true

pool-Precedes :
    (name : String) (size : ℕ) (tx : Tx) (txs pool : List Tx)
    → All (Precedes env (core_of (lane_for name size) pool) tx) txs
unfolding in_order
pool-Precedes name size tx [] pool = tt
pool-Precedes name size tx (other ∷ txs) pool = (λ c. refl, pool-Precedes name size tx txs pool)

pool-Pairs :
    (name : String) (size : ℕ) (txs pool : List Tx)
    → Pairs (Precedes env (core_of (lane_for name size) pool)) txs
pool-Pairs name size [] pool = tt
pool-Pairs name size (tx ∷ txs) pool =
    (pool-Precedes name size tx txs pool, pool-Pairs name size txs pool)

lane_for-IsCoherent : (name : String) (size : ℕ) → IsCoherent env Owns encode (lane_for name size)
lane_for-IsCoherent name size =
    default-IsCoherent env Owns encode (lane_for name size) refl refl refl
      (λ c pool other. pool-Pairs name size pool other) (λ c tx matched. matched)

chain-AllLanes : AllLanes (IsCoherent env Owns encode) chain
chain-AllLanes = (lane_for-IsCoherent "short" 1, (lane_for-IsCoherent "long" 2, tt))

two_not_one : (n : ℕ) → (n == 2) ≡ true → (n == 1) ≡ false
two_not_one n h = ground arith

chain-AreApart : AreApart env Owns encode chain
chain-AreApart = (
  λ tx owned c. elim owned [ inl h ↦ two_not_one (length tx.body) h | inr h ↦ absurd h ],
  (λ tx owned c. absurd owned, tt),
)

lane_for-IsDefault : (name : String) (size : ℕ) → IsDefault env units_laws (lane_for name size)
lane_for-IsDefault name size = record {
  handler = refl;
  share = precision / 2;
  share_units = refl;
  share_le = omega arith;
}

abbrev world : World ℕ (List Tx)
world = record { ctx = 0; pools = λ name. tx_of (7 ∷ 8 ∷ []) 20 ∷ tx_of (9 ∷ []) 10 ∷ [] }

chain_process_lanes-chain_prepare_lanes_example :
    IsReplayed env Owns encode chain world (new_proposal (pos 100) 1000)
chain_process_lanes-chain_prepare_lanes_example =
    chain_process_lanes-chain_prepare_lanes env Owns encode chain world
      (new_proposal (pos 100) 1000) (λ e. cc) chain-AllLanes chain-AreApart

default-IsCoherent_example : IsCoherent env Owns encode (lane_for "short" 1)
default-IsCoherent_example =
    default-IsCoherent env Owns encode (lane_for "short" 1) refl refl refl
      (λ c pool other. pool-Pairs "short" 1 pool other) (λ c tx matched. matched)

-- `MaxBytes` of 120 and `MaxGas` of 1000
abbrev params : ℕ → BlockParams
params ctx = record { max_bytes = pos 120; max_gas = pos 1000 }

params_limits : get_block_limits (params 0) ≡ (pos 120, 1000)
unfolding get_block_limits
params_limits = refl

process_proposal_handler-prepare_proposal_handler_example :
    ((prepare_proposal_handler env chain params (pos 5) (pos 100) [] world).1 ≡ false)
    × (process_proposal_handler env true chain params decode
          (pos 5)
          (prepare_proposal_handler env chain params (pos 5) (pos 100) [] world).0
          (record { ctx = 0; pools = λ name. [] })
        ≡ true)
process_proposal_handler-prepare_proposal_handler_example =
    process_proposal_handler-prepare_proposal_handler env units_laws Owns encode 100 120 1000
      (omega arith) (omega arith) (omega arith) (omega arith) chain params decode (pos 5) [] world
      (λ name. []) (λ e. cc) (lane_for-IsDefault "short" 1, (lane_for-IsDefault "long" 2, tt))
      chain-AllLanes chain-AreApart decode-Inverts params_limits

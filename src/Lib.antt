-- ===== src/Lib.antt =====
-- The Block SDK: how a block proposal is built from lanes and how a proposal is verified.
--
-- The program. A block is built by a chain of lanes. `PrepareProposalHandler` (abci/abci.go) starts
-- with an empty proposal and runs `ChainPrepareLanes` (abci/utils.go): each lane selects transactions
-- from its own mempool (block/base/proposals.go), adds them to the proposal (`UpdateProposal` of
-- block/proposals/update.go) and calls the next lane; a lane that fails or panics is skipped.
-- `ProcessProposalHandler` decodes a proposed block and runs `ChainProcessLanes`: each lane takes its
-- own transactions from the front, checks them, adds them to a proposal of its own and hands the rest
-- to the next lane.
--
-- The files.
-- - Prelude: shared names; Boolean tests, lists over the native numbers, integers with the wrap-around
--   of `int64` and `uint64` written out, association lists and results.
-- - Decimal: `math.LegacyDec` of the SDK as a parameter, `DecOps`, with its documented laws, `DecLaws`.
-- - Sdk: what the program sees of a transaction, its messages and coins.
-- - Proposals: block/proposals/proposals.go and utils.go (`Proposal`, `GetBlockLimits`,
--   `GetLaneLimits`); Proposals/Update: `UpdateProposal` of update.go, `update_proposal` here. Its
--   `map`s are lists of keys or of pairs. The other files below Proposals hold the proofs.
-- - Base: block/base (`GetTxInfo`, `VerifyTx`, match handlers); Base/Select and Base/Process: the two
--   default handlers of proposals.go; Base/Lane: `PrepareLane` and `ProcessLane` of abci.go. The state
--   is `World`: the context and the mempool of each lane. A cached context that is not written is the
--   context from before; a map that two copies of a proposal share is `Maps`. An error, a panic and a
--   result are the three constructors of `Outcome`.
-- - Base/Mempool: `Compare` of block/base/mempool.go and the default signer extraction. Base/Setup:
--   the construction of a lane, where each field that may be nil is an option: config.go, options.go,
--   tx_priority.go, `NewMempool`, `NewBaseLane` and `ValidateBasic` of lane.go. Base/Pool: the methods
--   of `Mempool` over its index.
-- - Utils: block/utils/utils.go; Utils/Decoder: the `CacheTxDecoder` of decoder.go, whose state is a
--   list of cached entries, the ring of hashes and its two indices. Utils/Decoder/Queue is the bounded
--   queue that it implements.
-- - Abci: abci/utils.go and abci/abci.go. The `next` closures of the source are function arguments,
--   built by recursion on the chain. Abci/Coherent states what a lane promises to the chain, which
--   Abci/Contract shows of lanes with the default handlers; Abci/Replay and Abci/Handlers run a
--   proposal of the one chain through the other.
-- - Auction: x/auction (types/params.go, types/bid_info.go and the parameters of keeper/keeper.go);
--   Auction/Bundle: the checks of bundles in keeper/auction.go, where the map of signers that is
--   filtered in place is a result; Auction/Bid: the validation and extraction of bids;
--   Auction/Server: `UpdateParams` and the basic validation; Auction/Keeper: the constructors and
--   getters of keeper.go; Auction/Rewards: the providers of x/auction/rewards; Auction/Genesis: the
--   default parameters, the genesis state and the query of the parameters. `Host` holds what the keeper
--   calls, and `CoinOps` the operations on coins and decimal coins of the SDK, where a panic is `none`,
--   with what the SDK documents of each in Auction/Coins; the arithmetic of `ExtractBid` is made of
--   them.
-- - Mev: lanes/mev (factory.go, utils.go); Mev/Proposal: the handlers of abci.go, with Mev/Selected
--   and Mev/First on the one, Mev/Accepted on the other, and Mev/RoundTrip from the one to the other;
--   Mev/Contract: what such a lane promises to the chain;
--   Mev/Splitting: such a lane in the chain of `ProcessProposal`; Mev/Order: the priority of bids and
--   `GetTopAuctionTx` of mempool.go.
-- - Lanes: the constructors of lanes/base, lanes/free and lanes/mev, and the match handler of the free
--   lane; Lanes/Terminator: the methods of lanes/terminator that do nothing.
-- - Ante: the `AuctionDecorator` of x/auction/ante; the context is the state that the keeper changes.
-- - Mempool: block/mempool.go (`LanedMempool`), `FindLane` of block/lane.go and the `IgnoreDecorator` of
--   block/ante.go.
-- - CheckTx: abci/checktx, its requests, responses and contexts. The state is `CheckState`: the
--   application and the mempools. CheckTx/Parity: `MempoolParityCheckTx` of mempool_parity_check_tx.go;
--   CheckTx/Bid: `MEVCheckTxHandler` of mev_check_tx.go. A handler is a function from a request and a
--   state to what it returns, or a panic, and the state. CheckTx/Auctioned puts the decorator of Ante
--   and the auction lane's mempool into the second handler.
-- - Tests: the theorems at concrete inputs.
--
-- Bounds. An `int64` is an integer and each sum of the source is taken modulo 2 ^ 64 into its range; a
-- `uint64` is a number modulo 2 ^ 64. Where a theorem speaks of true sums its hypotheses bound the
-- limits below 2 ^ 62 bytes and 2 ^ 63 gas; every single step then stays in its word. No definition
-- needs fuel: all loops are over lists.
--
-- Not modelled. The ante handler, encoder, decoder and signer extractor belong to the application and
-- are fields of `LaneConfig`; the hash of CometBFT and the mempool's index are fields of `Env`, because
-- block/base/priority_nonce.go is a copy of the mempool of cosmos-sdk. Logs, metrics, generated code,
-- gRPC services, the event of a bid and the wiring of the module are left out. A panic of a lane in
-- `Insert`, `Remove` or `Contains` of `LanedMempool`, which the source turns into an error or `false`,
-- is not modelled: mempools are parameters that do not panic.
pub mod Prelude
pub mod Decimal
pub mod Proposals
pub mod Sdk
pub mod Base
pub mod Abci
pub mod Auction
pub mod Mev
pub mod Mempool
pub mod CheckTx
pub mod Utils
pub mod Ante
pub mod Lanes
pub mod Tests

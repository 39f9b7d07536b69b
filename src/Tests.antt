-- ===== src/Tests.antt =====
-- The theorems at concrete inputs, and runs of the definitions.
pub mod Ante
pub mod Auction
pub mod Auctioned
pub mod Bids
pub mod CheckTxs
pub mod Compare
pub mod Decimals
pub mod Decoder
pub mod Escrow
pub mod Lanes
pub mod Made
pub mod Mev
pub mod Mempool
pub mod Pools
pub mod Progress
pub mod Proposals
pub mod Replay

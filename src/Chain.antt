-- ===== src/Chain.antt =====
-- Package blockchain (internal/blockchain): the mempool, the pending block and the chain.
pub mod Types
pub mod Mempool
pub mod Pending
pub mod Order
pub mod Ledger
pub mod Apply
pub mod Persist
pub mod Confirm
pub mod Fork
pub mod Blocks
pub mod Pool
pub mod Confirming
pub mod Writing
pub mod Saving
pub mod Outcome
pub mod Members
pub mod Steps
pub mod Once
pub mod Settled
pub mod Reached
pub mod Ranking
pub mod Shown
pub mod Reordering
pub mod Atomic
pub mod Heights
pub mod Persisted
pub mod Pages
pub mod Listing
pub mod Views
pub mod Headers
pub mod Frozen
pub mod Prune
pub mod Pruned
pub mod Thinned
mod Served
mod Tests

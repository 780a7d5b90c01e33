-- ===== src/Deals.antt =====
-- Package deals (internal/deals): the volunteer panel that rules on disputed deals.
pub mod Sets
pub mod Panel
pub mod Quorum
pub mod Book
pub mod Methods
pub mod Reading
pub mod Case
pub mod Step
pub mod Filed
pub mod Invariant
pub mod History
pub mod Growth
pub mod Reopening
pub mod Rulings
pub mod Secrecy
pub mod Digest
mod Tests

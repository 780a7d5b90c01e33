-- ===== src/Protocol.antt =====
-- Package protocol (internal/protocol): who may act as the owner of an address.
pub mod Ownership
pub mod Minting
pub mod Escrow
mod Tests

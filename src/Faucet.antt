-- ===== src/Faucet.antt =====
-- Package faucet (internal/faucet): one claim per address and cooldown.
pub mod Cooldown
pub mod Claims
pub mod Calls
mod Tests

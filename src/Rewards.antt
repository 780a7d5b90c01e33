-- ===== src/Rewards.antt =====
-- Package rewards (internal/rewards): the experience points of a validation, and the split of the fees.
pub mod Xp
pub mod Split
pub mod Fees
mod Tests

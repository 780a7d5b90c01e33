-- ===== src/Rating.antt =====
-- Package rating (internal/rating): the scores of nodes, slashing and the choice of a committee.
pub mod Scores
pub mod Registry
pub mod Bounds
pub mod Calls
pub mod Nodes
pub mod Invariant
pub mod Suspension
mod Tests
pub mod Selection
pub mod Candidates
pub mod Committee

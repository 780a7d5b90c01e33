-- ===== src/Contacts.antt =====
-- Package contacteconomy (internal/contacteconomy): first-contact requests, their settlement, and the
-- contacts, prices and reputations that they lead to.
pub mod Types
pub mod Split
pub mod Store
pub mod Requests
pub mod Responses
pub mod Settlement
pub mod Step
pub mod Life
pub mod History
pub mod Carried
pub mod Invariant
pub mod Sound
pub mod Keeping
pub mod Consent
pub mod Answered
pub mod Admission
pub mod Prices
pub mod Expiry
mod Tests

-- ===== src/Candidate.antt =====
-- services/recommendation-engine/src/trax_io_reco/candidate: the menu of candidates for one decision.
pub mod Decimals
pub mod Amounts
mod Types
pub mod Frontier
pub mod Planner
pub mod Valid
pub mod Reconcile
pub mod Builders
pub mod Transfers
pub use Types.*

-- ===== src/Tests.antt =====
-- Concrete runs of the modelled code, and the theorems at inputs that meet their hypotheses.
mod Fixtures
mod Amounts
mod Menus
mod Candidates
mod Portfolios
mod WritebackRuns
mod Approvals
mod Repairs
mod Constrained
mod Lanes
mod Views
mod Runs
mod Deliveries

-- ===== src/Tests.antt =====
-- Concrete inputs at which the theorems apply.
pub mod Fixed
pub mod Data
pub mod Quotas
pub mod States
pub mod Plans
pub mod Gates
pub mod Histories
pub mod Evidences
pub mod Recoveries
pub mod Selections

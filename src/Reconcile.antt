-- ===== src/Reconcile.antt =====
-- internal/reconcile/reconcile.go: from the desired policy and the observed state to a plan of
-- field edits. `Reconcile.Modes` has the modes of the mappings, `Reconcile.Survivors` the chains,
-- and `Reconcile.Plans` has `Build`.
pub mod Modes
pub mod Survivors
pub mod Overlay
pub mod Order
pub mod Plans
pub mod Edits
pub mod Skips

-- ===== src/State.antt =====
-- state/: the durable records of what was ordered, their reconciliation with the live account, and
-- the execution posture that follows.
pub mod Models
pub mod Store
pub mod Codec
pub mod Files
pub mod Reconcile
pub mod SlTpArtifact

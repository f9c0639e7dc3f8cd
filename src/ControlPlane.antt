-- ===== src/ControlPlane.antt =====
-- internal/controlplane: the state store, leader election, the node registry, the volume records
-- and what the controller renders.
pub mod Samples
pub mod StateStore
pub mod Upsert
pub mod Leader
pub mod Registry
pub mod VolumeRecords
pub mod Discovery
pub mod CrossNode
pub mod Rendering

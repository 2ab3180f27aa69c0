-- ===== src/Provision.antt =====
-- The provisioning path: preflight, sealed plan, approval and the gate before the executor.
pub mod Preflight
pub mod Plan
pub mod Approval
pub mod Execution
pub mod Topology

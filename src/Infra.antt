-- ===== src/Infra.antt =====
-- internal/pkg/infra: hypervisors, their ports, their lists and their conversions.
pub mod Hypervisor
pub mod Ports
pub mod Pods
pub mod Files
pub mod Listing
pub mod Versioned

-- ===== src/Infra/Ports.antt =====
-- HasPort, RequestPort and FreePort of internal/pkg/infra/hypervisor.go.
pub mod Granted
pub mod Owners
pub mod Invariant
pub mod Preservation
pub mod Lookup
pub mod Exclusive
pub mod History
use oneinfra.Base.{
  ℕ, ◌+◌, String, Bool, true, false, ◌&&◌, Option, none, some, List, [], ◌∷◌, ◌++◌, ◌==◌, ltb,
  if◌then◌else◌, length,
}
use oneinfra.Base.Errors.{Error, errorf, Result, ok, err}
use oneinfra.Infra.Hypervisor.{HypervisorPortAllocation, HypervisorPortAllocationList, Hypervisor}

-- the test on a port allocation that both loops make
abbrev pub owned_by : String → String → String → HypervisorPortAllocation → Bool
owned_by namespace cluster component allocation =
    allocation.cluster_namespace == namespace
    && (allocation.cluster == cluster && allocation.component == component)

unfoldable pub find_port : String → String → String → HypervisorPortAllocationList → Bool × ℕ
find_port namespace cluster component [] = (false, 0)
find_port namespace cluster component (allocation ∷ rest) =
    if owned_by namespace cluster component allocation
    then (true, allocation.port)
    else find_port namespace cluster component rest

unfoldable pub has_port : Hypervisor → String → String → String → Bool × ℕ
unfolding find_port
has_port hypervisor namespace cluster component =
    find_port namespace cluster component hypervisor.allocated_ports

abbrev pub new_allocation : String → String → String → ℕ → HypervisorPortAllocation
new_allocation namespace cluster component port = record {
  cluster_namespace = namespace;
  cluster = cluster;
  component = component;
  port = port;
}

-- hypervisor.allocatedPorts = append(hypervisor.allocatedPorts, …)
abbrev pub allocate : Hypervisor → String → String → String → ℕ → Hypervisor
allocate hypervisor namespace cluster component new_port = record hypervisor {
  allocated_ports =
      hypervisor.allocated_ports ++ new_allocation namespace cluster component new_port ∷ [];
}

-- The new port, from the freed ports or, where there is none, behind those in use.
abbrev pub request_new_port : List ℕ → Hypervisor → String → String → String → Hypervisor × Result ℕ
request_new_port (freed ∷ rest) hypervisor namespace cluster component = (
  allocate (record hypervisor { freed_ports = rest }) namespace cluster component freed,
  ok freed,
)
request_new_port [] hypervisor namespace cluster component =
    let new_port = hypervisor.port_range_low + length hypervisor.allocated_ports in
    if ltb hypervisor.port_range_high new_port
    then (hypervisor, err (errorf "no available ports on hypervisor %q" (hypervisor.name ∷ [])))
    else (allocate hypervisor namespace cluster component new_port, ok new_port)

unfoldable pub request_port : Hypervisor → String → String → String → Hypervisor × Result ℕ
unfolding has_port
request_port hypervisor namespace cluster component =
    let (exists, existing_port) = has_port hypervisor namespace cluster component in
    if exists
    then (hypervisor, ok existing_port)
    else request_new_port hypervisor.freed_ports hypervisor namespace cluster component

-- The loop of FreePort: the allocations kept so far, and the last that was dropped.
unfoldable pub free_loop :
    String
    → String
    → String
    → HypervisorPortAllocationList
    → HypervisorPortAllocationList
    → Option HypervisorPortAllocation
    → HypervisorPortAllocationList × Option HypervisorPortAllocation
free_loop namespace cluster component [] kept dropped = (kept, dropped)
free_loop namespace cluster component (allocation ∷ rest) kept dropped =
    let owned = owned_by namespace cluster component allocation in
    free_loop namespace cluster component rest (if owned then kept else kept ++ allocation ∷ [])
      (if owned then some allocation else dropped)

abbrev pub free_dropped :
    Hypervisor → HypervisorPortAllocationList × Option HypervisorPortAllocation → Hypervisor
free_dropped hypervisor (kept, none) = hypervisor
free_dropped hypervisor (kept, some allocation) = record hypervisor {
  allocated_ports = kept;
  freed_ports = hypervisor.freed_ports ++ allocation.port ∷ [];
}

-- FreePort returns no error on any path: the second component is `none`.
unfoldable pub free_port : Hypervisor → String → String → String → Hypervisor × Option Error
unfolding free_loop
free_port hypervisor namespace cluster component = (
  free_dropped hypervisor
      (free_loop namespace cluster component hypervisor.allocated_ports [] none),
  none,
)

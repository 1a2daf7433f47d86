-- ===== src/Infra/Hypervisor.antt =====
-- The data of internal/pkg/infra: hypervisor.go, port_allocation.go, file_map.go and
-- hypervisor_endpoint.go. The cached clients `criRuntime` and `criImage` and the pointer to the
-- connection pool are no part of a hypervisor's contents and have no field here.
use oneinfra.Base.{ℕ, String, Bool, Option, List}
use oneinfra.Dict.{Dict}

pub record HypervisorPortAllocation : Type 0 where
  pub cluster_namespace : String
  pub cluster : String
  pub component : String
  pub port : ℕ

abbrev pub HypervisorPortAllocationList : Type 0
HypervisorPortAllocationList = List HypervisorPortAllocation

-- The sum of each file, by its path.
abbrev pub FileMap : Type 0
FileMap = Dict String

abbrev pub ComponentFileMap : Type 0
ComponentFileMap = Dict FileMap

abbrev pub ClusterFileMap : Type 0
ClusterFileMap = Dict ComponentFileMap

abbrev pub NamespacedClusterFileMap : Type 0
NamespacedClusterFileMap = Dict ClusterFileMap

-- A certificate without the parsed forms that are cached beside its texts.
pub record Certificate : Type 0 where
  pub certificate : String
  pub private_key : String

pub data HypervisorEndpoint : Type 0 where
  local_endpoint : String → HypervisorEndpoint
  remote_endpoint : String → Certificate → Option Certificate → HypervisorEndpoint

-- `files` is `none` for a nil map.
pub record Hypervisor : Type 0 where
  pub name : String
  pub resource_version : String
  pub labels : Dict String
  pub annotations : Dict String
  pub public : Bool
  pub ip_address : String
  pub files : Option NamespacedClusterFileMap
  pub endpoint : HypervisorEndpoint
  pub port_range_low : ℕ
  pub port_range_high : ℕ
  pub freed_ports : List ℕ
  pub allocated_ports : HypervisorPortAllocationList
  pub loaded_contents_hash : String

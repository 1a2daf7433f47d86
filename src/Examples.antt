-- ===== src/Examples.antt =====
-- The theorems at concrete inputs, and the data that these share.
pub mod Runtime
pub mod Pods
pub mod Etcd
pub mod Leaving
pub mod Vpn
pub mod Ports
pub mod Components
pub mod Lists
pub mod Scheduling
pub mod Cycles
pub mod Tokens
pub mod Clusters
use oneinfra.Infra.Ports.History.{fresh-WellFormed}
use oneinfra.Component.{control_plane_role, Component}
use oneinfra.Infra.Ports.Invariant.{WellFormed}
use oneinfra.Infra.Hypervisor.{local_endpoint, Hypervisor}
use oneinfra.Base.{refl, false, none, [], ◌∷◌, arith}

-- A private hypervisor with the ports 30000 to 30002.
abbrev pub host_a : Hypervisor
host_a = record {
  name = "host-a";
  resource_version = "1";
  labels = [];
  annotations = [];
  public = false;
  ip_address = "10.0.0.1";
  files = none;
  endpoint = local_endpoint "/run/containerd.sock";
  port_range_low = 30000;
  port_range_high = 30002;
  freed_ports = [];
  allocated_ports = [];
  loaded_contents_hash = "";
}

abbrev pub component_a : Component
component_a = record {
  name = "cluster-control-plane-a";
  generate_name = "";
  namespace = "default";
  resource_version = "1";
  labels = [];
  annotations = [];
  finalizers = "oneinfra/cleanup" ∷ [];
  deletion_timestamp = none;
  role = control_plane_role;
  hypervisor_name = "host-a";
  cluster_name = "cluster";
  allocated_host_ports = [];
  client_certificates = [];
  server_certificates = [];
  input_endpoints = [];
  output_endpoints = [];
  conditions = [];
  loaded_contents_hash = "";
}

abbrev pub component_b : Component
component_b = record component_a { name = "cluster-control-plane-b" }

pub host_a-WellFormed : WellFormed host_a
host_a-WellFormed = fresh-WellFormed host_a (refl, refl, ground arith)

-- ===== src/Reconciler/Clusters.antt =====
-- internal/pkg/cluster/reconciler/reconciler.go: the cluster reconciler. The cluster has the fields
-- that it reads and writes. The steps that it makes inside of a cluster are parameters: they change
-- the cluster and `W`, what lies behind its API server. `join_host_port` is net.JoinHostPort with
-- the number of the port, and `https_url` is the text of a URL with the scheme https and a host.
pub mod Endpoints
pub mod Steps
pub mod Cycle
pub mod Deletion
use oneinfra.Component.{control_plane_ingress_role, control_plane_role, Component}
use oneinfra.Component.Names.{
  etcd_client_host_port_name, etcd_peer_host_port_name, wireguard_host_port_name,
  api_server_host_port_name,
}
use oneinfra.Infra.Hypervisor.{Hypervisor}
use oneinfra.Component.Listing.{with_role, with_cluster, ComponentList}
use oneinfra.Infra.Listing.{HypervisorMap}
use oneinfra.Reconciler.{add_cluster_error, ReconcileErrors}
use oneinfra.Conditions.{ConditionList}
use oneinfra.Base.{
  ℕ, String, Bool, true, false, not, Option, none, some, List, [], ◌∷◌, ◌==◌, if◌then◌else◌, length,
}
use oneinfra.Base.Integers.{ℤ, is_count}
use oneinfra.Base.Errors.{err, errorf, ok, Result, Error, ◌>>=◌}
use oneinfra.Dict
use oneinfra.Dict.{Dict}

pub record Cluster : Type 0 where
  pub name : String
  pub namespace : String
  pub finalizers : List String
  pub control_plane_replicas : ℤ
  pub vpn_enabled : Bool
  pub api_server_endpoint : String
  pub vpn_server_endpoint : String
  pub storage_client_endpoints : Dict String
  pub storage_peer_endpoints : Dict String
  pub conditions : ConditionList

abbrev pub cluster_reconcile_started : String
cluster_reconcile_started = "ReconcileStarted"

abbrev pub cluster_reconcile_succeeded : String
cluster_reconcile_succeeded = "ReconcileSucceeded"

abbrev pub add_error_to : Cluster → Error → ReconcileErrors → ReconcileErrors
add_error_to cluster e errors = add_cluster_error errors cluster.namespace cluster.name e

module _ (hypervisor_map : HypervisorMap) (component_list : ComponentList)
    (join_host_port : String → ℕ → String) (https_url : String → String) where
  unfoldable pub is_component_scheduled : Component → Bool
  is_component_scheduled component =
      if component.hypervisor_name == ""
      then false
      else Dict.has component.hypervisor_name hypervisor_map

  unfoldable pub fully_scheduled_loop : Bool → ComponentList → Bool
  unfolding is_component_scheduled
  fully_scheduled_loop has_components [] = has_components
  fully_scheduled_loop has_components (component ∷ components) =
      if not (is_component_scheduled component) then false else fully_scheduled_loop true components

  unfoldable pub is_cluster_fully_scheduled : String → String → Bool
  unfolding fully_scheduled_loop
  is_cluster_fully_scheduled cluster_namespace cluster_name =
      fully_scheduled_loop false (with_cluster component_list cluster_namespace cluster_name)

  abbrev pub port_found : String → Hypervisor → Option ℕ → Result (Hypervisor × ℕ)
  port_found name hypervisor none = err (
      errorf
        "found one control plane ingress component, but it does not have a named host port %q yet"
        (name ∷ []))
  port_found name hypervisor (some port) = ok (hypervisor, port)

  abbrev pub port_on : String → Option Hypervisor → Component → Result (Hypervisor × ℕ)
  port_on name none component = err (
      errorf
        "found one control plane ingress component, but it is assigned to an unknown hypervisor" [])
  port_on name (some hypervisor) component =
      port_found name hypervisor (Dict.lookup name component.allocated_host_ports)

  -- The hypervisor and the named host port of the only ingress component.
  abbrev pub port_of_only : String → ComponentList → Result (Hypervisor × ℕ)
  port_of_only name [] = err (errorf "could not find any control plane ingress component" [])
  port_of_only name (component ∷ []) =
      port_on name (Dict.lookup component.hypervisor_name hypervisor_map) component
  port_of_only name (component ∷ other ∷ components) =
      err (errorf "more than one control plane ingress component was found" [])

  abbrev pub components_of : Cluster → String → ComponentList
  components_of cluster = with_role (with_cluster component_list cluster.namespace cluster.name)

  abbrev pub ingress_port : String → Cluster → Result (Hypervisor × ℕ)
  ingress_port name cluster = port_of_only name (components_of cluster control_plane_ingress_role)

  abbrev pub set_api_server_endpoint :
      Result (Hypervisor × ℕ) → Cluster → ReconcileErrors → Cluster × ReconcileErrors
  set_api_server_endpoint (err e) cluster errors = (cluster, add_error_to cluster e errors)
  set_api_server_endpoint (ok (hypervisor, port)) cluster errors = (
    record cluster { api_server_endpoint = https_url (join_host_port hypervisor.ip_address port) },
    errors,
  )

  unfoldable pub reconcile_api_server_endpoint :
      Cluster → ReconcileErrors → Cluster × ReconcileErrors
  reconcile_api_server_endpoint cluster =
      set_api_server_endpoint (ingress_port api_server_host_port_name cluster) cluster

  abbrev pub set_vpn_server_endpoint :
      Result (Hypervisor × ℕ) → Cluster → ReconcileErrors → Cluster × ReconcileErrors
  set_vpn_server_endpoint (err e) cluster errors = (cluster, add_error_to cluster e errors)
  set_vpn_server_endpoint (ok (hypervisor, port)) cluster errors =
      (record cluster { vpn_server_endpoint = join_host_port hypervisor.ip_address port }, errors)

  unfoldable pub reconcile_vpn_server_endpoint :
      Cluster → ReconcileErrors → Cluster × ReconcileErrors
  reconcile_vpn_server_endpoint cluster =
      set_vpn_server_endpoint (ingress_port wireguard_host_port_name cluster) cluster

  -- An entry that has to be there, or the error that it is not.
  abbrev pub or_missing : {A : Type 0} → String → Component → Option A → Result A
  or_missing message component none =
      err (errorf message (component.namespace ∷ component.name ∷ []))
  or_missing message component (some a) = ok a

  abbrev pub storage_url : Hypervisor → ℕ → String
  storage_url hypervisor port = https_url (join_host_port hypervisor.ip_address port)

  -- The peer and the client endpoint of one control plane component.
  unfoldable pub storage_endpoints : Component → Result (String × String)
  storage_endpoints component = do
    hypervisor ←
        or_missing "could not find hypervisor for component %s/%s" component
          (Dict.lookup component.hypervisor_name hypervisor_map)
    peer_port ←
        or_missing "could not find etcd peer host port for component %s/%s" component
          (Dict.lookup etcd_peer_host_port_name component.allocated_host_ports)
    client_port ←
        or_missing "could not find etcd client host port for component %s/%s" component
          (Dict.lookup etcd_client_host_port_name component.allocated_host_ports)
    ok (storage_url hypervisor peer_port, storage_url hypervisor client_port)

  unfoldable pub storage_loop :
      Dict String → Dict String → ComponentList → Result (Dict String × Dict String)
  unfolding storage_endpoints
  storage_loop peers clients [] = ok (peers, clients)
  storage_loop peers clients (component ∷ components) = elim component.deletion_timestamp [
    | some _ ↦ storage_loop peers clients components
    | none ↦ elim (storage_endpoints component) [
      | err e ↦ err e
      | ok (peer, client) ↦
          storage_loop (Dict.insert component.name peer peers)
            (Dict.insert component.name client clients) components
    ]
  ]

  abbrev pub set_storage_endpoints :
      Result (Dict String × Dict String) → Cluster → ReconcileErrors → Cluster × ReconcileErrors
  set_storage_endpoints (err e) cluster errors = (cluster, add_error_to cluster e errors)
  set_storage_endpoints (ok (peers, clients)) cluster errors = (
    record cluster { storage_peer_endpoints = peers; storage_client_endpoints = clients },
    errors,
  )

  unfoldable pub reconcile_storage_endpoints : Cluster → ReconcileErrors → Cluster × ReconcileErrors
  unfolding storage_loop
  reconcile_storage_endpoints cluster errors =
      let control_planes = components_of cluster control_plane_role in
      if not (is_count cluster.control_plane_replicas (length control_planes))
      then (
        cluster,
        add_error_to cluster
            (errorf
              "the number of control plane components does not match the number of desired replicas"
              [])
            errors,
      )
      else set_storage_endpoints (storage_loop [] [] control_planes) cluster errors

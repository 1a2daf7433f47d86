-- ===== src/Examples/Clusters.antt =====
-- A cluster with one ingress component on a hypervisor that is known.
use oneinfra.Reconciler.Clusters.Deletion.{reconcile_cluster_deletion-LetGo, LetGo}
use oneinfra.Reconciler.Components.Laws.{errors_of}
use oneinfra.Examples.{component_a, host_a}
use oneinfra.Reconciler.Clusters.Steps.{
  reconcile_cluster_deletion, reconcile_clusters, ClusterMethods, ClusterMethod,
}
use oneinfra.Reconciler.{full_cluster_name, is_cluster_error_free}
use oneinfra.Component.Listing.{with_cluster, ComponentList}
use oneinfra.Infra.Listing.{HypervisorMap}
use oneinfra.Component.{control_plane_ingress_role, Component}
use oneinfra.Reconciler.Clusters.{
  reconcile_api_server_endpoint, Cluster, is_cluster_fully_scheduled,
}
use oneinfra.Reconciler.Clusters.Cycle.{reconcile_clusters-Succeeded, Succeeded, key_of}
use oneinfra.Reconciler.Clusters.Endpoints.{reconcile_api_server_endpoint-SoleIngress, SoleIngress}
use oneinfra.Base.Integers.{pos}
use oneinfra.Base.{ℕ, ◌+◌, String, ◌≡◌, refl, true, false, none, [], ◌∷◌, All}
use oneinfra.Dict

abbrev ingress_component : Component
ingress_component = record component_a {
  name = "cluster-ingress";
  role = control_plane_ingress_role;
  allocated_host_ports = ("apiserver", 30000) ∷ [];
}

abbrev hosts : HypervisorMap
hosts = ("host-a", host_a) ∷ []

abbrev only_ingress : ComponentList
only_ingress = ingress_component ∷ []

abbrev join : String → ℕ → String
join host port = host

abbrev url : String → String
url host = host

abbrev served : Cluster
served = record {
  name = "cluster";
  namespace = "default";
  finalizers = "oneinfra/cleanup" ∷ [];
  control_plane_replicas = pos 0;
  vpn_enabled = false;
  api_server_endpoint = "";
  vpn_server_endpoint = "";
  storage_client_endpoints = [];
  storage_peer_endpoints = [];
  conditions = [];
}

abbrev quiet : ClusterMethod Unit
quiet c w = ((c, w), none)

abbrev quiet_methods : ClusterMethods Unit
quiet_methods = record {
  custom_resource_definitions = quiet;
  namespaces = quiet;
  permissions = quiet;
  join_tokens = quiet;
  kube_proxy = quiet;
  core_dns = quiet;
  node_join_requests = quiet;
  join_public_key_config_map = quiet;
}

abbrev ticks : ℕ → ℕ → ℕ
ticks i n = i + n

endpoint_found :
    is_cluster_error_free
      (reconcile_api_server_endpoint hosts only_ingress join url served []).1
      "default"
      "cluster"
    ≡ true
unfolding is_cluster_error_free reconcile_api_server_endpoint Dict.lookup
    oneinfra.Component.Listing.with_role with_cluster
endpoint_found = refl

reconcile_api_server_endpoint-SoleIngress_example :
    (s : SoleIngress hosts only_ingress join url served) × ((reconcile_api_server_endpoint hosts
        only_ingress join url served []).0.api_server_endpoint
      ≡ url (join s.hypervisor.ip_address s.port))
reconcile_api_server_endpoint-SoleIngress_example =
    reconcile_api_server_endpoint-SoleIngress hosts only_ingress join url served [] endpoint_found

cycle_free :
    is_cluster_error_free
      (errors_of
        (reconcile_clusters hosts only_ingress join url quiet_methods true ticks ticks []
          (served ∷ [])
          tt).1)
      "default"
      "cluster"
    ≡ true
unfolding is_cluster_error_free reconcile_clusters Dict.lookup is_cluster_fully_scheduled
    with_cluster Dict.has reconcile_api_server_endpoint oneinfra.Component.Listing.with_role
    oneinfra.Reconciler.Clusters.reconcile_storage_endpoints
cycle_free = refl

reconcile_clusters-Succeeded_example :
    All
      (λ c. key_of c ≡ full_cluster_name "default" "cluster" → Succeeded c)
      (reconcile_clusters hosts only_ingress join url quiet_methods true ticks ticks []
        (served ∷ [])
        tt).0.0
reconcile_clusters-Succeeded_example =
    reconcile_clusters-Succeeded hosts only_ingress join url quiet_methods true ticks ticks []
      (served ∷ []) tt "default" "cluster" cycle_free

deletion_free :
    is_cluster_error_free
      (errors_of (reconcile_cluster_deletion [] (served ∷ [])).1)
      "default"
      "cluster"
    ≡ true
unfolding is_cluster_error_free reconcile_cluster_deletion Dict.lookup with_cluster
deletion_free = refl

reconcile_cluster_deletion-LetGo_example :
    All
      (λ c. key_of c ≡ full_cluster_name "default" "cluster" → LetGo [] c)
      (reconcile_cluster_deletion [] (served ∷ [])).0
reconcile_cluster_deletion-LetGo_example =
    reconcile_cluster_deletion-LetGo [] (served ∷ []) "default" "cluster" deletion_free

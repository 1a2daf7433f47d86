-- ===== src/Reconciler/Clusters/Steps.antt =====
-- Reconcile and ReconcileDeletion of internal/pkg/cluster/reconciler/reconciler.go.
use oneinfra.Utils.{remove_elements_from_list}
use oneinfra.Reconciler.Components.{cleanup_finalizer, nil_if_empty}
use oneinfra.Conditions.{condition_false, condition_true, set_condition}
use oneinfra.Component.Listing.{with_cluster, ComponentList}
use oneinfra.Infra.Listing.{HypervisorMap}
use oneinfra.Reconciler.{ReconcileErrors, is_cluster_error_free}
use oneinfra.Reconciler.Clusters.{
  reconcile_api_server_endpoint, add_error_to, reconcile_storage_endpoints,
  reconcile_vpn_server_endpoint, cluster_reconcile_started, is_cluster_fully_scheduled,
  cluster_reconcile_succeeded, Cluster,
}
use oneinfra.Base.{
  ℕ, suc, String, Bool, not, Option, none, some, List, [], ◌∷◌, ltb, if◌then◌else◌, length,
}
use oneinfra.Base.Errors.{errorf, wrap, Error}

abbrev pub ClusterMethod : Type 0 → Type 0
ClusterMethod W = Cluster → W → (Cluster × W) × Option Error

-- The steps inside of a cluster, which are methods of the cluster.
pub record ClusterMethods (W : Type 0) : Type 0 where
  pub custom_resource_definitions : ClusterMethod W
  pub namespaces : ClusterMethod W
  pub permissions : ClusterMethod W
  pub join_tokens : ClusterMethod W
  pub kube_proxy : ClusterMethod W
  pub core_dns : ClusterMethod W
  pub node_join_requests : ClusterMethod W
  pub join_public_key_config_map : ClusterMethod W

-- The variables of one round.
pub record ClusterRound (W : Type 0) : Type 0 where
  pub cluster : Cluster
  pub world : W
  pub errors : ReconcileErrors

module _ {W : Type 0} where
  abbrev pub after_method : String → (Cluster × W) × Option Error → ReconcileErrors → ClusterRound W
  after_method message ((cluster, w), none) errors = record {
    cluster = cluster;
    world = w;
    errors = errors;
  }
  after_method message ((cluster, w), some e) errors = record {
    cluster = cluster;
    world = w;
    errors = add_error_to cluster (wrap e message []) errors;
  }

  -- reconcileNamespaces and the other steps of its form.
  abbrev pub with_method : String → ClusterMethod W → ClusterRound W → ClusterRound W
  with_method message method s = after_method message (method s.cluster s.world) s.errors

  abbrev pub with_endpoint :
      (Cluster → ReconcileErrors → Cluster × ReconcileErrors) → ClusterRound W → ClusterRound W
  with_endpoint step s =
      let (cluster, errors) = step s.cluster s.errors in
      record s { cluster = cluster; errors = errors }

  abbrev pub is_round_free : ClusterRound W → Bool
  is_round_free s = is_cluster_error_free s.errors s.cluster.namespace s.cluster.name

  abbrev pub set_round_condition : (ℕ → ℕ) → String → String → ClusterRound W → ClusterRound W
  set_round_condition now condition_type status s = record s {
    cluster = record s.cluster {
      conditions = set_condition now s.cluster.conditions condition_type status;
    };
  }

module _ (hypervisor_map : HypervisorMap) (component_list : ComponentList)
    (join_host_port : String → ℕ → String) (https_url : String → String) {W : Type 0}
    (methods : ClusterMethods W) (reconcile_node_join_requests : Bool)
    (starts ends : ℕ → ℕ → ℕ) where
  -- The steps between the two conditions.
  unfoldable pub make_steps : ClusterRound W → ClusterRound W
  make_steps s =
      let a =
        if s.cluster.vpn_enabled
        then with_endpoint
            (reconcile_vpn_server_endpoint hypervisor_map component_list join_host_port https_url) s
        else s in
      let b =
        with_method "failed to reconcile custom resource definitions"
          methods.custom_resource_definitions a in
      let c = with_method "failed to reconcile namespaces" methods.namespaces b in
      let d = with_method "failed to reconcile permissions" methods.permissions c in
      let e = with_method "failed to reconcile join tokens" methods.join_tokens d in
      let f =
        with_endpoint
          (reconcile_storage_endpoints hypervisor_map component_list join_host_port https_url) e in
      let g = with_method "failed to reconcile kube-proxy" methods.kube_proxy f in
      let h = with_method "failed to reconcile CoreDNS" methods.core_dns g in
      let i =
        if reconcile_node_join_requests
        then with_method "failed to reconcile node join requests" methods.node_join_requests h
        else h in
      with_method "failed to reconcile join public key ConfigMap" methods.join_public_key_config_map
        i

  abbrev pub conclude : (ℕ → ℕ) → ClusterRound W → ClusterRound W
  conclude now s =
      set_round_condition now cluster_reconcile_succeeded
        (if is_round_free s then condition_true else condition_false) s

  abbrev pub after_api_server : ℕ → ClusterRound W → ClusterRound W
  after_api_server i s =
      if not (is_round_free s)
      then s
      else conclude (ends i)
          (make_steps (set_round_condition (starts i) cluster_reconcile_started condition_true s))

  unfoldable pub cluster_round : ℕ → ClusterRound W → ClusterRound W
  unfolding make_steps
  cluster_round i s =
      if not (
        is_cluster_fully_scheduled hypervisor_map component_list join_host_port https_url
          s.cluster.namespace s.cluster.name)
      then record s {
        errors = add_error_to s.cluster (errorf "cluster is not fully scheduled" []) s.errors;
      }
      else after_api_server i (
          with_endpoint
            (reconcile_api_server_endpoint hypervisor_map component_list join_host_port https_url)
            s)

  -- The loop of Reconcile over the clusters that it is given, or all that the reconciler has: the
  -- clusters as they are left behind, the rest, and the errors.
  unfoldable pub cluster_loop :
      ℕ → List Cluster → W → ReconcileErrors → (List Cluster × W) × ReconcileErrors
  unfolding cluster_round
  cluster_loop i [] w errors = (([], w), errors)
  cluster_loop i (cluster ∷ clusters) w errors =
      let s = cluster_round i (record { cluster = cluster; world = w; errors = errors }) in
      let ((rest, w'), errors') = cluster_loop (suc i) clusters s.world s.errors in
      ((s.cluster ∷ rest, w'), errors')

  unfoldable pub reconcile_clusters :
      List Cluster → List Cluster → W → (List Cluster × W) × Option ReconcileErrors
  unfolding cluster_loop
  reconcile_clusters all [] w =
      let (left, errors) = cluster_loop 0 all w [] in (left, nil_if_empty errors)
  reconcile_clusters all (cluster ∷ clusters) w =
      let (left, errors) = cluster_loop 0 (cluster ∷ clusters) w [] in (left, nil_if_empty errors)

-- ReconcileDeletion, cluster by cluster.
unfoldable pub cluster_deletion_loop :
    ComponentList → List Cluster → ReconcileErrors → List Cluster × ReconcileErrors
cluster_deletion_loop component_list [] errors = ([], errors)
cluster_deletion_loop component_list (cluster ∷ clusters) errors =
    let remaining = ltb 0 (length (with_cluster component_list cluster.namespace cluster.name)) in
    let errors' =
      if remaining
      then add_error_to cluster (errorf "not all components are deleted yet" []) errors
      else errors in
    let cluster' : Cluster = if remaining then cluster else record cluster {
      finalizers = remove_elements_from_list cluster.finalizers (cleanup_finalizer ∷ []);
    } in
    let (rest, errors'') = cluster_deletion_loop component_list clusters errors' in
    (cluster' ∷ rest, errors'')

unfoldable pub reconcile_cluster_deletion :
    ComponentList → List Cluster → List Cluster × Option ReconcileErrors
unfolding cluster_deletion_loop
reconcile_cluster_deletion component_list clusters =
    let (left, errors) = cluster_deletion_loop component_list clusters [] in
    (left, nil_if_empty errors)

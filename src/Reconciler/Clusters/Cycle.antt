-- ===== src/Reconciler/Clusters/Cycle.antt =====
-- What the errors of a cycle say of the clusters.
use oneinfra.Conditions.Setting.{is_condition-set_condition_self}
use oneinfra.Reconciler.Components.{nil_if_empty}
use oneinfra.Dict.{Dict}
use oneinfra.Reconciler.Laws.{no_errors-add_error}
use oneinfra.Conditions.{condition_false, set_condition, condition_true, is_condition}
use oneinfra.Reconciler.Components.Laws.{errors_of-nil_if_empty, errors_of, IsFree}
use oneinfra.Reconciler.{is_cluster_error_free, add_error, full_cluster_name, ReconcileErrors}
use oneinfra.Infra.Listing.{HypervisorMap}
use oneinfra.Reconciler.Clusters.Steps.{
  set_round_condition, is_round_free, after_api_server, conclude, reconcile_clusters, cluster_loop,
  cluster_round, with_endpoint, make_steps, with_method, ClusterMethods, ClusterRound, after_method,
  ClusterMethod,
}
use oneinfra.Reconciler.Clusters.{
  cluster_reconcile_started, api_server_host_port_name, is_cluster_fully_scheduled,
  wireguard_host_port_name, ingress_port, reconcile_api_server_endpoint,
  reconcile_vpn_server_endpoint, set_api_server_endpoint, set_vpn_server_endpoint,
  control_plane_role, set_storage_endpoints, Hypervisor, components_of, reconcile_storage_endpoints,
  cluster_reconcile_succeeded, ComponentList, Cluster,
}
use oneinfra.Base.Integers.{is_count}
use oneinfra.Base.{
  ℕ, suc, String, ◌≡◌, sym, subst, ◌≢◌, inl, inr, Bool, true, false, Option, none, some, List, [],
  ◌∷◌, arith, ◌==◌, eq_iff, if◌then◌else◌, Bool-cases, length, All,
}
use oneinfra.Base.Errors.{err, ok, wrap, Result, Error}

abbrev pub key_of : Cluster → String
key_of c = full_cluster_name c.namespace c.name

-- The last reconciliation of the cluster succeeded.
abbrev pub Succeeded : Cluster → Type 0
Succeeded c = is_condition c.conditions cluster_reconcile_succeeded condition_true ≡ true

pub IsFree-add_error :
    (errors : ReconcileErrors) (k j : String) (e : Error)
    → IsFree (add_error errors k e) j
    → IsFree errors j × (k ≢ j)
IsFree-add_error errors k j e free = elim (Bool-cases (k == j)) [
  | inl q ↦ absurd (ground (arith, no_errors-add_error errors k j e, free, q))
  | inr q ↦ (
    ground (arith, no_errors-add_error errors k j e, free, q),
    (λ i. ground (arith, eq_iff k j, q)),
  )
]

-- A step adds errors and takes none away.
abbrev OnlyAdds : ReconcileErrors → ReconcileErrors → Type 0
OnlyAdds errors errors' = (j : String) → IsFree errors' j → IsFree errors j

module _ {W : Type 0} where
  after_method-OnlyAdds :
      (message : String) (r : (Cluster × W) × Option Error) (errors : ReconcileErrors)
      → OnlyAdds errors (after_method message r errors).errors
  after_method-OnlyAdds message ((c, w), none) errors j free = free
  after_method-OnlyAdds message ((c, w), some e) errors j free =
      (IsFree-add_error errors (key_of c) j (wrap e message []) free).0

  with_method-OnlyAdds :
      (message : String) (method : ClusterMethod W) (s : ClusterRound W)
      → OnlyAdds s.errors (with_method message method s).errors
  with_method-OnlyAdds message method s =
      after_method-OnlyAdds message (method s.cluster s.world) s.errors

  if-OnlyAdds :
      (b : Bool) (errors : ReconcileErrors) (s t : ClusterRound W)
      → OnlyAdds errors s.errors
      → OnlyAdds errors t.errors
      → OnlyAdds errors (if b then s else t).errors
  if-OnlyAdds true errors s t g h = g
  if-OnlyAdds false errors s t g h = h

module _ (hypervisor_map : HypervisorMap) (component_list : ComponentList)
    (join_host_port : String → ℕ → String) (https_url : String → String) where
  api_server-OnlyAdds :
      (r : Result (Hypervisor × ℕ)) (c : Cluster) (errors : ReconcileErrors)
      → OnlyAdds errors
          (set_api_server_endpoint hypervisor_map component_list join_host_port https_url r c
            errors).1
  api_server-OnlyAdds (ok (h, p)) c errors j free = free
  api_server-OnlyAdds (err e) c errors j free = (IsFree-add_error errors (key_of c) j e free).0

  vpn-OnlyAdds :
      (r : Result (Hypervisor × ℕ)) (c : Cluster) (errors : ReconcileErrors)
      → OnlyAdds errors
          (set_vpn_server_endpoint hypervisor_map component_list join_host_port https_url r c
            errors).1
  vpn-OnlyAdds (ok (h, p)) c errors j free = free
  vpn-OnlyAdds (err e) c errors j free = (IsFree-add_error errors (key_of c) j e free).0

  storage-OnlyAdds :
      (r : Result (Dict String × Dict String)) (c : Cluster) (errors : ReconcileErrors)
      → OnlyAdds errors
          (set_storage_endpoints hypervisor_map component_list join_host_port https_url r c
            errors).1
  storage-OnlyAdds (ok (p, q)) c errors j free = free
  storage-OnlyAdds (err e) c errors j free = (IsFree-add_error errors (key_of c) j e free).0

  reconcile_storage_endpoints-OnlyAdds :
      (c : Cluster) (errors : ReconcileErrors)
      → OnlyAdds errors
          (reconcile_storage_endpoints hypervisor_map component_list join_host_port https_url c
            errors).1
  unfolding reconcile_storage_endpoints
  reconcile_storage_endpoints-OnlyAdds c errors j =
      let l =
        components_of hypervisor_map component_list join_host_port https_url c control_plane_role in
      elim (Bool-cases (is_count c.control_plane_replicas (length l))) [
        | inl e ↦ rw e (storage-OnlyAdds _ c errors j)
        | inr e ↦ rw e (λ free. (IsFree-add_error errors (key_of c) j _ free).0)
      ]

  module _ {W : Type 0} (methods : ClusterMethods W) (optional : Bool)
      (starts ends : ℕ → ℕ → ℕ) where
    make_steps-OnlyAdds :
        (s : ClusterRound W)
        → OnlyAdds s.errors
            (make_steps hypervisor_map component_list join_host_port https_url methods optional
              starts ends s).errors
    unfolding make_steps reconcile_vpn_server_endpoint
    make_steps-OnlyAdds s j free =
        let v =
          with_endpoint
            (reconcile_vpn_server_endpoint hypervisor_map component_list join_host_port https_url)
            s in
        let a = if s.cluster.vpn_enabled then v else s in
        let b =
          with_method "failed to reconcile custom resource definitions"
            methods.custom_resource_definitions a in
        let c = with_method "failed to reconcile namespaces" methods.namespaces b in
        let d = with_method "failed to reconcile permissions" methods.permissions c in
        let e = with_method "failed to reconcile join tokens" methods.join_tokens d in
        let f =
          with_endpoint
            (reconcile_storage_endpoints hypervisor_map component_list join_host_port https_url)
            e in
        let g = with_method "failed to reconcile kube-proxy" methods.kube_proxy f in
        let h = with_method "failed to reconcile CoreDNS" methods.core_dns g in
        let n = with_method "failed to reconcile node join requests" methods.node_join_requests h in
        let i = if optional then n else h in
        let at_i = with_method-OnlyAdds _ methods.join_public_key_config_map i j free in
        let at_h =
          if-OnlyAdds optional h.errors n h (with_method-OnlyAdds _ methods.node_join_requests h)
            (λ k q. q) j at_i in
        let at_f =
          with_method-OnlyAdds _ methods.kube_proxy f j
            (with_method-OnlyAdds _ methods.core_dns g j at_h) in
        let at_e = reconcile_storage_endpoints-OnlyAdds e.cluster e.errors j at_f in
        let at_c =
          with_method-OnlyAdds _ methods.permissions c j
            (with_method-OnlyAdds _ methods.join_tokens d j at_e) in
        let at_a =
          with_method-OnlyAdds _ methods.custom_resource_definitions a j
            (with_method-OnlyAdds _ methods.namespaces b j at_c) in
        if-OnlyAdds s.cluster.vpn_enabled s.errors v s
          (vpn-OnlyAdds
            (ingress_port hypervisor_map component_list join_host_port https_url
              wireguard_host_port_name s.cluster)
            s.cluster s.errors)
          (λ k q. q) j at_a

    -- What a round that ends without errors of a cluster says of that cluster.
    abbrev Tells : ReconcileErrors → ClusterRound W → Type 0
    Tells errors t =
        (j : String)
        → IsFree t.errors j
        → IsFree errors j × (key_of t.cluster ≡ j → Succeeded t.cluster)

    conclude-Tells :
        (now : ℕ → ℕ) (s : ClusterRound W) (errors : ReconcileErrors)
        → OnlyAdds errors s.errors
        → Tells errors (
            conclude hypervisor_map component_list join_host_port https_url methods optional starts
              ends now s)
    unfolding is_cluster_error_free
    conclude-Tells now s errors adds j free = (
      adds j free,
      (λ k.
          subst
            (λ b.
              is_condition
                (set_condition now s.cluster.conditions cluster_reconcile_succeeded
                  (if b then condition_true else condition_false))
                cluster_reconcile_succeeded condition_true
              ≡ true)
            (sym (subst (λ z. IsFree s.errors z) (sym k) free))
            (is_condition-set_condition_self now cluster_reconcile_succeeded condition_true
              condition_true s.cluster.conditions)),
    )

    after_api_server-Tells :
        (i : ℕ) (s : ClusterRound W) (errors : ReconcileErrors)
        → OnlyAdds errors s.errors
        → Tells errors (
            after_api_server hypervisor_map component_list join_host_port https_url methods optional
              starts ends i s)
    unfolding is_cluster_error_free
    after_api_server-Tells i s errors adds =
        let u = set_round_condition (starts i) cluster_reconcile_started condition_true s in
        elim (Bool-cases (is_round_free s)) [
          | inl e ↦ rw e (
              conclude-Tells (ends i)
                (make_steps hypervisor_map component_list join_host_port https_url methods optional
                  starts ends u)
                errors (λ j free. adds j (make_steps-OnlyAdds u j free)))
          | inr e ↦ rw e (λ j free. (
            adds j free,
            (λ k. absurd (ground (arith, e, subst (λ z. IsFree s.errors z) (sym k) free))),
          ))
        ]

    cluster_round-Tells :
        (i : ℕ) (s : ClusterRound W)
        → Tells s.errors (
            cluster_round hypervisor_map component_list join_host_port https_url methods optional
              starts ends i s)
    unfolding cluster_round reconcile_api_server_endpoint
    cluster_round-Tells i s =
        elim (Bool-cases (
          is_cluster_fully_scheduled hypervisor_map component_list join_host_port https_url
            s.cluster.namespace s.cluster.name)) [
              | inl e ↦ rw e (
                  after_api_server-Tells i
                    (with_endpoint
                      (reconcile_api_server_endpoint hypervisor_map component_list join_host_port
                        https_url)
                      s)
                    s.errors
                    (api_server-OnlyAdds
                      (ingress_port hypervisor_map component_list join_host_port https_url
                        api_server_host_port_name s.cluster)
                      s.cluster s.errors))
              | inr e ↦ rw e (λ j free.
                  let (a, b) = IsFree-add_error s.errors (key_of s.cluster) j _ free in
                  (a, (λ k. absurd (b k))))
            ]

    cluster_loop-Tells :
        (i : ℕ) (l : List Cluster) (w : W) (errors : ReconcileErrors) (j : String)
        → let r =
            cluster_loop hypervisor_map component_list join_host_port https_url methods optional
              starts ends i l w errors in
          IsFree r.1 j → IsFree errors j × All (λ c. key_of c ≡ j → Succeeded c) r.0.0
    unfolding cluster_loop
    cluster_loop-Tells i [] w errors j free = (free, tt)
    cluster_loop-Tells i (c ∷ l) w errors j free =
        let start : ClusterRound W = record { cluster = c; world = w; errors = errors } in
        let s =
          cluster_round hypervisor_map component_list join_host_port https_url methods optional
            starts ends i start in
        let (a, b) = cluster_loop-Tells (suc i) l s.world s.errors j free in
        let (x, y) = cluster_round-Tells i start j a in (x, (y, b))

    returned-IsFree :
        (errors : ReconcileErrors) (j : String)
        → IsFree (errors_of (nil_if_empty errors)) j
        → IsFree errors j
    returned-IsFree errors j free = subst (λ z. IsFree z j) (errors_of-nil_if_empty errors) free

    -- If a cluster is free of errors after Reconcile, each cluster with its names that was
    -- reconciled has the condition that its reconciliation succeeded.
    pub reconcile_clusters-Succeeded :
        (all clusters : List Cluster) (w : W) (namespace name : String)
        → is_cluster_error_free
            (errors_of
              (reconcile_clusters hypervisor_map component_list join_host_port https_url methods
                optional starts ends all clusters w).1)
            namespace
            name
          ≡ true
        → All
            (λ c. key_of c ≡ full_cluster_name namespace name → Succeeded c)
            (reconcile_clusters hypervisor_map component_list join_host_port https_url methods
              optional starts ends all clusters w).0.0
    unfolding reconcile_clusters is_cluster_error_free
    reconcile_clusters-Succeeded all [] w namespace name free =
        let j = full_cluster_name namespace name in
        (cluster_loop-Tells 0 all w [] j (returned-IsFree _ j free)).1
    reconcile_clusters-Succeeded all (c ∷ l) w namespace name free =
        let j = full_cluster_name namespace name in
        (cluster_loop-Tells 0 (c ∷ l) w [] j (returned-IsFree _ j free)).1

-- ===== src/Reconciler/Clusters/Endpoints.antt =====
-- When a cluster is scheduled, and where its API server is reached.
use oneinfra.Reconciler.Laws.{no_errors-add_error}
use oneinfra.Infra.Hypervisor.{Hypervisor}
use oneinfra.Component.{control_plane_ingress_role, Component}
use oneinfra.Reconciler.{full_cluster_name, ReconcileErrors, is_cluster_error_free}
use oneinfra.Reconciler.Clusters.{
  ingress_port, port_on, port_found, reconcile_api_server_endpoint, set_api_server_endpoint,
  api_server_host_port_name, components_of, port_of_only, is_cluster_fully_scheduled,
  fully_scheduled_loop, is_component_scheduled, Cluster,
}
use oneinfra.Component.Listing.{with_cluster, ComponentList}
use oneinfra.Infra.Listing.{HypervisorMap}
use oneinfra.Base.{
  ℕ, ◌<◌, String, ◌≡◌, refl, ap, ◌≢◌, ◌↔◌, inl, inr, true, false, Option, none, some, [], ◌∷◌,
  arith, eq_iff, eq_refl, Bool-cases, length, All,
}
use oneinfra.Base.Errors.{ok_inj, err, ok, Result}
use oneinfra.Dict

module _ (hypervisor_map : HypervisorMap) (component_list : ComponentList)
    (join_host_port : String → ℕ → String) (https_url : String → String) where
  -- The component names a hypervisor that is known.
  abbrev pub IsScheduled : Component → Type 0
  IsScheduled c = (c.hypervisor_name ≢ "") × (Dict.has c.hypervisor_name hypervisor_map ≡ true)

  is_component_scheduled_lem :
      (c : Component)
      → (is_component_scheduled hypervisor_map component_list join_host_port https_url c ≡ true)
        ↔ IsScheduled c
  unfolding is_component_scheduled Dict.has
  is_component_scheduled_lem c = ground (arith, eq_iff c.hypervisor_name "")

  fully_scheduled_loop-true :
      (l : ComponentList)
      → (fully_scheduled_loop hypervisor_map component_list join_host_port https_url true l ≡ true)
        ↔ All IsScheduled l
  unfolding fully_scheduled_loop
  fully_scheduled_loop-true [] = ((λ _. tt), (λ _. refl))
  fully_scheduled_loop-true (c ∷ l) =
      let (there, back) = fully_scheduled_loop-true l in
      let (there', back') = is_component_scheduled_lem c in
      elim (Bool-cases
        (is_component_scheduled hypervisor_map component_list join_host_port https_url c)) [
          | inl e ↦ rw e ((λ h. (there' e, there h)), (λ p. back p.1))
          | inr e ↦ rw e ((λ h. cc), (λ p. absurd (ground (arith, e, back' p.0))))
        ]

  fully_scheduled_loop_lem :
      (l : ComponentList)
      → (fully_scheduled_loop hypervisor_map component_list join_host_port https_url false l ≡ true)
        ↔ ((0 < length l) × All IsScheduled l)
  unfolding fully_scheduled_loop
  fully_scheduled_loop_lem [] = ((λ h. cc), (λ p. absurd (omega (arith, p.0))))
  fully_scheduled_loop_lem (c ∷ l) =
      let (there, back) = fully_scheduled_loop-true l in
      let (there', back') = is_component_scheduled_lem c in
      elim (Bool-cases
        (is_component_scheduled hypervisor_map component_list join_host_port https_url c)) [
          | inl e ↦ rw e ((λ h. (omega arith, (there' e, there h))), (λ p. back p.1.1))
          | inr e ↦ rw e ((λ h. cc), (λ p. absurd (ground (arith, e, back' p.1.0))))
        ]

  -- A cluster is fully scheduled exactly if it has a component, and every component of it names a
  -- hypervisor that is known.
  is_cluster_fully_scheduled_lem :
      (namespace name : String)
      → (is_cluster_fully_scheduled hypervisor_map component_list join_host_port https_url namespace
            name
          ≡ true)
        ↔ ((0 < length (with_cluster component_list namespace name))
            × All IsScheduled (with_cluster component_list namespace name))
  unfolding is_cluster_fully_scheduled
  is_cluster_fully_scheduled_lem namespace name =
      fully_scheduled_loop_lem (with_cluster component_list namespace name)

  -- The only ingress component of the cluster, its hypervisor, which is known, and the host port
  -- that it has for the API server.
  pub record SoleIngress (cluster : Cluster) : Type 0 where
    pub ingress : Component
    pub hypervisor : Hypervisor
    pub port : ℕ
    pub sole :
        components_of hypervisor_map component_list join_host_port https_url cluster
          control_plane_ingress_role
        ≡ ingress ∷ []
    pub known : Dict.lookup ingress.hypervisor_name hypervisor_map ≡ some hypervisor
    pub allocated : Dict.lookup api_server_host_port_name ingress.allocated_host_ports ≡ some port

  port_found_ok :
      (name : String) (g h : Hypervisor) (o : Option ℕ) (p : ℕ)
      → port_found hypervisor_map component_list join_host_port https_url name g o ≡ ok (h, p)
      → (g ≡ h) × (o ≡ some p)
  port_found_ok name g h none p e = cc
  port_found_ok name g h (some q) p e = (ap (λ z. z.0) (ok_inj e), ap (λ z. some z.1) (ok_inj e))

  port_on_ok :
      (name : String) (o : Option Hypervisor) (c : Component) (h : Hypervisor) (p : ℕ)
      → port_on hypervisor_map component_list join_host_port https_url name o c ≡ ok (h, p)
      → (o ≡ some h) × (Dict.lookup name c.allocated_host_ports ≡ some p)
  port_on_ok name none c h p e = cc
  port_on_ok name (some g) c h p e =
      let (a, b) = port_found_ok name g h (Dict.lookup name c.allocated_host_ports) p e in
      (ap some a, b)

  port_of_only_ok :
      (l : ComponentList) (h : Hypervisor) (p : ℕ)
      → port_of_only hypervisor_map component_list join_host_port https_url
          api_server_host_port_name l
        ≡ ok (h, p)
      → (c : Component) × (l ≡ c ∷ [])
        × (Dict.lookup c.hypervisor_name hypervisor_map ≡ some h)
        × (Dict.lookup api_server_host_port_name c.allocated_host_ports ≡ some p)
  port_of_only_ok [] h p e = cc
  port_of_only_ok (c ∷ d ∷ l) h p e = cc
  port_of_only_ok (c ∷ []) h p e =
      let (a, b) =
        port_on_ok api_server_host_port_name (Dict.lookup c.hypervisor_name hypervisor_map) c h p
          e in
      (c, refl, a, b)

  set_endpoint :
      (r : Result (Hypervisor × ℕ)) (cluster : Cluster) (errors : ReconcileErrors)
      → let s =
          set_api_server_endpoint hypervisor_map component_list join_host_port https_url r cluster
            errors in
        is_cluster_error_free s.1 cluster.namespace cluster.name ≡ true
        → (g : Hypervisor × ℕ) × (r ≡ ok g)
          × (s.0.api_server_endpoint ≡ https_url (join_host_port g.0.ip_address g.1))
  unfolding is_cluster_error_free
  set_endpoint (ok (h, p)) cluster errors free = ((h, p), refl, refl)
  set_endpoint (err e) cluster errors free =
      let k = full_cluster_name cluster.namespace cluster.name in
      absurd (ground (arith, no_errors-add_error errors k k e, eq_refl k, free))

  -- If the step for the endpoint of the API server leaves the cluster free of errors, the cluster
  -- has one ingress component and no more, that component has a host port for the API server on a
  -- known hypervisor, and the endpoint is made of the address of the hypervisor and that port.
  pub reconcile_api_server_endpoint-SoleIngress :
      (cluster : Cluster) (errors : ReconcileErrors)
      → is_cluster_error_free
          (reconcile_api_server_endpoint hypervisor_map component_list join_host_port https_url
            cluster errors).1
          cluster.namespace
          cluster.name
        ≡ true
      → (s : SoleIngress cluster) × ((reconcile_api_server_endpoint hypervisor_map component_list
            join_host_port https_url cluster errors).0.api_server_endpoint
          ≡ https_url (join_host_port s.hypervisor.ip_address s.port))
  unfolding reconcile_api_server_endpoint
  reconcile_api_server_endpoint-SoleIngress cluster errors free =
      let l =
        components_of hypervisor_map component_list join_host_port https_url cluster
          control_plane_ingress_role in
      let ((h, p), e, u) =
        set_endpoint
          (ingress_port hypervisor_map component_list join_host_port https_url
            api_server_host_port_name cluster)
          cluster errors free in
      let (c, a, b, d) = port_of_only_ok l h p e in
      (record { ingress = c; hypervisor = h; port = p; sole = a; known = b; allocated = d }, u)

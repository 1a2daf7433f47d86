-- ===== src/Components/Etcd/OwnUrl.antt =====
-- The place of a component and its peer URL across the calls of
-- internal/pkg/component/components/etcd.go.
use oneinfra.Components.Store.{or_panic-ok}
use oneinfra.Base.{
  ℕ, String, ◌≡◌, refl, sym, ap, ap₂, ◌∙◌, subst, inl, inr, Bool, true, false, Option, none, some,
  List, [], ◌∷◌, arith, ◌==◌, Bool-cases, All, All-if,
}
use oneinfra.Base.Errors.{ok, some_inj, err, ok_inj, Result}
use oneinfra.Base.Actions.{>>=-Ensures, >>=-Keeps, >>=-Leaves, Keeps, Ensures}
use oneinfra.Dict
use oneinfra.Dict.{Dict}
use oneinfra.Component.{request_missing_port, control_plane_role, request_port, Component}
use oneinfra.Component.Listing.{with_role, with_cluster}
use oneinfra.Component.Names.{etcd_client_host_port_name, etcd_peer_host_port_name}
use oneinfra.Components.{
  written, current_hypervisor, cluster_components, current_component, is_component,
  request_own_address, component_hypervisor, ComponentList, request_port_of, Hypervisor, Stage,
  Inquirer, find_component,
}
use oneinfra.Components.Etcd.{
  is_deleted, endpoint_of, add_endpoint, client_endpoint_of, etcd_url, client_endpoints_loop,
  etcd_client_endpoints, EtcdApi, etcd_client, etcd_peer_url,
}
use oneinfra.Components.Etcd.Pinned.{request_port_of-Pinned, Pinned, AtPlace, Place}

All-with_role :
    (P : Component → Type 0) (role : String) (l : ComponentList)
    → All P l
    → All P (with_role l role)
unfolding with_role
All-with_role P role [] h = tt
All-with_role P role (c ∷ l) h =
    All-if P (c.role == role) (c ∷ with_role l role) (with_role l role)
      (h.0, All-with_role P role l h.1) (All-with_role P role l h.1)

All-with_cluster :
    (P : Component → Type 0) (namespace name : String) (l : ComponentList)
    → All P l
    → All P (with_cluster l namespace name)
unfolding with_cluster
All-with_cluster P namespace name [] h = tt
All-with_cluster P namespace name (c ∷ l) h =
    All-if P _ (c ∷ with_cluster l namespace name) (with_cluster l namespace name)
      (h.0, All-with_cluster P namespace name l h.1) (All-with_cluster P namespace name l h.1)

module _ {W : Type 0} (etcd : EtcdApi W) (inquirer : Inquirer) (place : Place) where
  abbrev pub IsPinned : Stage W → Type 0
  IsPinned = Pinned inquirer place

  add_endpoint-Pinned :
      (endpoints : List String) (h : Hypervisor) (r : Result ℕ × Stage W)
      → IsPinned r.1
      → IsPinned (add_endpoint etcd endpoints h r).1
  add_endpoint-Pinned endpoints h (err e, stage) p = p
  add_endpoint-Pinned endpoints h (ok port, stage) p = p

  endpoint_of-Pinned :
      (name : String) (c : Component) (endpoints : List String) (o : Option Hypervisor)
      (stage : Stage W)
      → IsPinned stage
      → AtPlace inquirer place c
      → Dict.lookup c.hypervisor_name stage.hypervisors ≡ o
      → IsPinned (endpoint_of etcd name c endpoints o stage).1
  endpoint_of-Pinned name c endpoints none stage p at e = p
  endpoint_of-Pinned name c endpoints (some h) stage p at e =
      add_endpoint-Pinned endpoints h (request_port_of c h name stage)
        (request_port_of-Pinned inquirer place c h name stage p at e)

  client_endpoint_of-Pinned :
      (deleted : Bool) (c : Component) (endpoints : List String) (stage : Stage W)
      → IsPinned stage
      → AtPlace inquirer place c
      → IsPinned (client_endpoint_of etcd deleted c endpoints stage).1
  unfolding component_hypervisor
  client_endpoint_of-Pinned true c endpoints stage p at = p
  client_endpoint_of-Pinned false c endpoints stage p at =
      endpoint_of-Pinned etcd_client_host_port_name c endpoints (component_hypervisor c stage) stage
        p at refl

  client_endpoints_loop-Pinned :
      (endpoints : List String) (l : ComponentList) (stage : Stage W)
      → IsPinned stage
      → All (AtPlace inquirer place) l
      → IsPinned (client_endpoints_loop etcd endpoints l stage).1
  unfolding client_endpoints_loop
  client_endpoints_loop-Pinned endpoints [] stage p at = p
  client_endpoints_loop-Pinned endpoints (c ∷ l) stage p at =
      let next = client_endpoint_of etcd (is_deleted c) c endpoints stage in
      client_endpoints_loop-Pinned next.0 l next.1
        (client_endpoint_of-Pinned (is_deleted c) c endpoints stage p at.0) at.1

  pub etcd_client_endpoints-Pinned :
      (stage : Stage W) → IsPinned stage → IsPinned (etcd_client_endpoints etcd inquirer stage).1
  unfolding etcd_client_endpoints cluster_components
  etcd_client_endpoints-Pinned stage p =
      client_endpoints_loop-Pinned [] (cluster_components inquirer control_plane_role stage) stage p
        (All-with_role (AtPlace inquirer place) control_plane_role _ (
          All-with_cluster (AtPlace inquirer place) inquirer.cluster_namespace inquirer.cluster_name
            stage.components p.0))

  pub etcd_client-Pinned : Keeps IsPinned (etcd_client etcd inquirer)
  unfolding etcd_client
  etcd_client-Pinned stage p = etcd_client_endpoints-Pinned stage p

  -- The URL of the place.
  abbrev pub place_url : String
  place_url = etcd_url etcd place.ip_address place.port

  found-AtPlace :
      (l : ComponentList) (c : Component)
      → All (AtPlace inquirer place) l
      → find_component inquirer.namespace inquirer.name l ≡ some c
      → (c.hypervisor_name ≡ place.hypervisor_name)
        × (Dict.lookup etcd_peer_host_port_name c.allocated_host_ports ≡ some place.port)
  unfolding find_component
  found-AtPlace [] c all e = absurd (ground (arith, e))
  found-AtPlace (d ∷ l) c all e =
      elim (Bool-cases (is_component inquirer.namespace inquirer.name d)) [
        | inl here ↦
            (let same : d ≡ c = some_inj (ground (arith, here, e)) in
              subst
                (λ (z : Component).
                  (z.hypervisor_name ≡ place.hypervisor_name)
                  × (Dict.lookup etcd_peer_host_port_name z.allocated_host_ports ≡ some place.port))
                same (all.0 here))
        | inr there ↦ found-AtPlace l c all.1 (ground (arith, there, e))
      ]

  -- What asking for the own port leaves: the place, its address and its port.
  abbrev AtOwn : String × ℕ → Stage W → Type 0
  AtOwn own stage = IsPinned stage × (own.0 ≡ place.ip_address) × (own.1 ≡ place.port)

  recorded_port :
      (c : Component) (h : Hypervisor) (p q : ℕ)
      → Dict.lookup etcd_peer_host_port_name c.allocated_host_ports ≡ some p
      → (stage : Stage W) → (request_port_of c h etcd_peer_host_port_name stage).0 ≡ ok q
      → q ≡ p
  unfolding request_port_of request_port
  recorded_port c h p q l stage e =
      ok_inj (
        sym e ∙ ap (λ o. (written stage (request_missing_port o c h etcd_peer_host_port_name)).0) l)

  abbrev IsFound : Component → Stage W → Type 0
  IsFound c stage =
      IsPinned stage × (find_component inquirer.namespace inquirer.name stage.components ≡ some c)

  abbrev IsHosted : Component → Hypervisor → Stage W → Type 0
  IsHosted c h stage =
      IsPinned stage
      × (find_component inquirer.namespace inquirer.name stage.components ≡ some c)
      × (Dict.lookup c.hypervisor_name stage.hypervisors ≡ some h)

  request_own_port_of-Pinned :
      (c : Component) (h : Hypervisor) (stage : Stage W)
      → IsHosted c h stage
      → IsPinned (request_port_of c h etcd_peer_host_port_name stage).1
  request_own_port_of-Pinned c h stage (p, f, l) =
      request_port_of-Pinned inquirer place c h etcd_peer_host_port_name stage p
        (λ key. found-AtPlace stage.components c p.0 f) l

  request_own_address-AtOwn :
      Ensures IsPinned (request_own_address inquirer etcd_peer_host_port_name) AtOwn
  unfolding request_own_address current_component current_hypervisor component_hypervisor
  request_own_address-AtOwn =
      >>=-Ensures IsPinned IsFound AtOwn (current_component inquirer) _
        (λ stage p c e.
          (p, or_panic-ok (find_component inquirer.namespace inquirer.name stage.components) c e))
        λ c.
          >>=-Ensures (IsFound c) (IsHosted c) AtOwn (current_hypervisor inquirer c) _
            (λ stage p h e.
              (p.0, p.1, or_panic-ok (Dict.lookup c.hypervisor_name stage.hypervisors) h e))
            λ h.
              >>=-Ensures (IsHosted c h)
                (λ q stage. IsPinned stage × (h.ip_address ≡ place.ip_address) × (q ≡ place.port))
                AtOwn (request_port_of c h etcd_peer_host_port_name) _
                (λ stage (p, f, l) q e.
                  let (host, port) = found-AtPlace stage.components c p.0 f in
                  (
                    request_port_of-Pinned inquirer place c h etcd_peer_host_port_name stage p
                        (λ key. (host, port)) l,
                    p.1 h (ap (λ z. Dict.lookup z stage.hypervisors) (sym host) ∙ l),
                    recorded_port c h place.port q port stage e,
                  ))
                λ q stage p own e. subst (λ z. AtOwn z stage) (ok_inj e) p

  pub etcd_peer_url-place_url :
      Ensures IsPinned
        (etcd_peer_url etcd inquirer)
        (λ url stage. IsPinned stage × (url ≡ place_url))
  unfolding etcd_peer_url
  etcd_peer_url-place_url =
      >>=-Ensures IsPinned AtOwn (λ url stage. IsPinned stage × (url ≡ place_url))
        (request_own_address inquirer etcd_peer_host_port_name) _ request_own_address-AtOwn
        λ own stage (p, ip, port) url e. (p, sym (ok_inj e) ∙ ap₂ (etcd_url etcd) ip port)

  pub etcd_peer_url-Pinned : Keeps IsPinned (etcd_peer_url etcd inquirer)
  unfolding etcd_peer_url request_own_address current_component current_hypervisor
      component_hypervisor
  etcd_peer_url-Pinned =
      >>=-Keeps IsPinned (request_own_address inquirer etcd_peer_host_port_name) _
        (>>=-Leaves IsPinned IsPinned IsFound (current_component inquirer) _ (λ stage p. p)
          (λ stage p c e.
            (p, or_panic-ok (find_component inquirer.namespace inquirer.name stage.components) c e))
          λ c.
            >>=-Leaves (IsFound c) IsPinned (IsHosted c) (current_hypervisor inquirer c) _
              (λ stage p. p.0)
              (λ stage p h e.
                (p.0, p.1, or_panic-ok (Dict.lookup c.hypervisor_name stage.hypervisors) h e))
              λ h.
                >>=-Leaves (IsHosted c h) IsPinned (λ q. IsPinned)
                  (request_port_of c h etcd_peer_host_port_name) _ (request_own_port_of-Pinned c h)
                  (λ stage p q e. request_own_port_of-Pinned c h stage p) λ q stage p. p)
        λ own stage p. p

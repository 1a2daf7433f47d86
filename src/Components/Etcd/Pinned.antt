-- ===== src/Components/Etcd/Pinned.antt =====
-- The place of a component, as internal/pkg/component/components/etcd.go reads it from the store for
-- the peer URL: its hypervisor, the address of this hypervisor and the recorded host port.
use oneinfra.Base.Errors.{some_inj}
use oneinfra.Infra.Ports.{request_new_port}
use oneinfra.Base.{
  ℕ, String, ◌≡◌, refl, sym, ap, ap₂, ◌∙◌, inl, inr, true, ◌&&◌, Option, none, some, List, [], ◌∷◌,
  arith, ◌==◌, eq_iff, Bool-cases, All,
}
use oneinfra.Infra.Ports
use oneinfra.Infra.Ports.{has_port}
use oneinfra.Dict
use oneinfra.Dict.{Dict, lookup-insert}
use oneinfra.Component.{
  request_port, record_port, with_subcomponent_name, request_missing_port, Component,
}
use oneinfra.Component.Names.{etcd_peer_host_port_name}
use oneinfra.Components.{
  request_port_of, err, ok, written, Result, ComponentList, is_component, Hypervisor, Stage,
  Inquirer, put_component,
}

-- What is known of a component and its hypervisor: the hypervisor's name, its address and the port.
pub record Place : Type 0 where
  pub hypervisor_name : String
  pub ip_address : String
  pub port : ℕ

module _ (inquirer : Inquirer) (place : Place) where
  -- The component in reconciliation is at this place.
  abbrev pub AtPlace : Component → Type 0
  AtPlace c =
      is_component inquirer.namespace inquirer.name c ≡ true
      → (c.hypervisor_name ≡ place.hypervisor_name)
        × (Dict.lookup etcd_peer_host_port_name c.allocated_host_ports ≡ some place.port)

  abbrev pub HasAddress : Option Hypervisor → Type 0
  HasAddress o = (h : Hypervisor) → o ≡ some h → h.ip_address ≡ place.ip_address

  abbrev pub Pinned : {W : Type 0} → Stage W → Type 0
  Pinned stage =
      All AtPlace stage.components
      × HasAddress (Dict.lookup place.hypervisor_name stage.hypervisors)

  put_component-AtPlace :
      (c : Component) (l : ComponentList)
      → AtPlace c
      → All AtPlace l
      → All AtPlace (put_component c l)
  unfolding put_component
  put_component-AtPlace c [] p all = tt
  put_component-AtPlace c (d ∷ l) p all = elim (Bool-cases (is_component c.namespace c.name d)) [
    | inl e ↦ rw e (p, all.1)
    | inr e ↦ rw e (all.0, put_component-AtPlace c l p all.1)
  ]

  -- What a request for a port changes neither in the component nor in the hypervisor.
  abbrev SameAs : Component → Hypervisor → Component × Hypervisor → Type 0
  SameAs c h (c', h') =
      (c'.namespace ≡ c.namespace)
      × (c'.name ≡ c.name)
      × (c'.hypervisor_name ≡ c.hypervisor_name)
      × (h'.ip_address ≡ h.ip_address)
      × ((name : String) (p : ℕ)
          → Dict.lookup name c.allocated_host_ports ≡ some p
          → Dict.lookup name c'.allocated_host_ports ≡ some p)

  request_new_port-ip_address :
      (l : List ℕ) (h : Hypervisor) (n c k : String)
      → (request_new_port l h n c k).0.ip_address ≡ h.ip_address
  request_new_port-ip_address (freed ∷ rest) h n c k = refl
  request_new_port-ip_address [] h n c k = ground arith

  request_port-ip_address :
      (h : Hypervisor) (n c k : String) → (Ports.request_port h n c k).0.ip_address ≡ h.ip_address
  unfolding Ports.request_port
  request_port-ip_address h n c k = elim (Bool-cases (has_port h n c k).0) [
    | inl e ↦ rw e refl
    | inr e ↦ rw e (request_new_port-ip_address h.freed_ports h n c k)
  ]

  record_port-SameAs :
      (c : Component) (h : Hypervisor) (name : String) (r : Hypervisor × Result ℕ)
      → Dict.lookup name c.allocated_host_ports ≡ none
      → r.0.ip_address ≡ h.ip_address
      → SameAs c h (record_port c name r).0
  record_port-SameAs c h name (h', ok q) absent e = (
    refl,
    refl,
    refl,
    e,
    λ other p f.
        ground
          (arith, f, absent, eq_iff name other, lookup-insert name other q c.allocated_host_ports),
  )
  record_port-SameAs c h name (h', err x) absent e = (refl, refl, refl, e, λ other p f. f)

  request_missing_port-SameAs :
      (o : Option ℕ) (c : Component) (h : Hypervisor) (name : String)
      → Dict.lookup name c.allocated_host_ports ≡ o
      → SameAs c h (request_missing_port o c h name).0
  request_missing_port-SameAs none c h name e =
      record_port-SameAs c h name _ e
        (request_port-ip_address h c.namespace c.cluster_name (with_subcomponent_name c name))
  request_missing_port-SameAs (some p) c h name e = (refl, refl, refl, refl, λ other q f. f)

  SameAs-AtPlace :
      (c c' : Component) (h h' : Hypervisor) → SameAs c h (c', h') → AtPlace c → AtPlace c'
  SameAs-AtPlace c c' h h' (same_namespace, same_name, same_host, same_ip, keeps) p key =
      let (host, port) = p (
        ap₂ (λ a b. (a == inquirer.namespace) && (b == inquirer.name)) (sym same_namespace)
          (sym same_name)
        ∙ key) in
      (same_host ∙ host, keeps etcd_peer_host_port_name place.port port)

  module _ {W : Type 0} where
    written_address :
        (c c' : Component) (h h' : Hypervisor) (stage : Stage W)
        → HasAddress (Dict.lookup place.hypervisor_name stage.hypervisors)
        → Dict.lookup c.hypervisor_name stage.hypervisors ≡ some h
        → SameAs c h (c', h')
        → HasAddress (
            Dict.lookup place.hypervisor_name (Dict.insert c'.hypervisor_name h' stage.hypervisors))
    written_address c c' h h' stage address here (a, b, same_host, same_ip, d) g e =
        let read = lookup-insert c'.hypervisor_name place.hypervisor_name h' stage.hypervisors in
        elim (Bool-cases (c'.hypervisor_name == place.hypervisor_name)) [
          | inl hit ↦
              (let its_name : c'.hypervisor_name ≡ place.hypervisor_name =
                  (eq_iff c'.hypervisor_name place.hypervisor_name).0 hit in
                let its_h : h' ≡ g = some_inj (ground (arith, hit, read, e)) in
                ap (λ (z : Hypervisor). z.ip_address) (sym its_h)
                ∙ same_ip
                ∙ address h
                    (ap (λ z. Dict.lookup z stage.hypervisors) (sym its_name ∙ same_host) ∙ here))
          | inr miss ↦ address g (ground (arith, miss, read, e))
        ]

    written-Pinned :
        (c : Component) (h : Hypervisor) (stage : Stage W)
        → Pinned stage
        → AtPlace c
        → Dict.lookup c.hypervisor_name stage.hypervisors ≡ some h
        → (r : (Component × Hypervisor) × Result ℕ) → SameAs c h r.0
        → Pinned (written stage r).1
    written-Pinned c h stage (all, address) p here ((c', h'), r) same = (
      put_component-AtPlace c' stage.components (SameAs-AtPlace c c' h h' same p) all,
      written_address c c' h h' stage address here same,
    )

    pub request_port_of-Pinned :
        (c : Component) (h : Hypervisor) (name : String) (stage : Stage W)
        → Pinned stage
        → AtPlace c
        → Dict.lookup c.hypervisor_name stage.hypervisors ≡ some h
        → Pinned (request_port_of c h name stage).1
    unfolding request_port_of request_port
    request_port_of-Pinned c h name stage p at here =
        let o = Dict.lookup name c.allocated_host_ports in
        written-Pinned c h stage p at here (request_missing_port o c h name)
          (request_missing_port-SameAs o c h name refl)

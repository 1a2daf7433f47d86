-- ===== src/Component/Sharing.antt =====
-- Several components on one hypervisor.
use oneinfra.Base.{ℕ, String, ◌≡◌, ◌∙◌, Option, none, some}
use oneinfra.Base.Errors.{Result, ok, err, Error}
use oneinfra.Dict
use oneinfra.Infra.Hypervisor.{Hypervisor}
use oneinfra.Infra.Ports.Lookup.{has_port-request_port_other, has_port-free_port_other}
use oneinfra.Infra.Ports.Invariant.{WellFormed}
use oneinfra.Infra.Ports.Preservation.{request_port-WellFormed, free_port-WellFormed}
use oneinfra.Infra.Ports.Exclusive.{has_port-exclusive}
use oneinfra.Component.{
  Component, with_subcomponent_name, request_port, free_port, record_port, request_missing_port,
  free_known_port, forget_port,
}
use oneinfra.Component.Names.{HostPort, host_port_name, with_subcomponent_name-injective}
use oneinfra.Component.HostPorts.{Agrees, SameIdentity, other_component}

record_port-other :
    (c d : Component) (h : Hypervisor) (q : HostPort) (g : Hypervisor × Result ℕ)
    → Agrees d g.0
    → Agrees d (record_port c (host_port_name q) g).0.1
record_port-other c d h q (g, ok p) a = a
record_port-other c d h q (g, err e) a = a

forget_port-other :
    (c d : Component) (h : Hypervisor) (q : HostPort) (g : Hypervisor × Option Error)
    → Agrees d g.0
    → Agrees d (forget_port c (host_port_name q) g).0.1
forget_port-other c d h q (g, none) a = a
forget_port-other c d h q (g, some e) a = a

module _ (c d : Component) (different : ¬ SameIdentity c d) (h : Hypervisor) (q : HostPort) where
  request_missing-other :
      (o : Option ℕ) → Agrees d h → Agrees d (request_missing_port o c h (host_port_name q)).0.1
  request_missing-other (some p) a = a
  request_missing-other none a = record_port-other c d h q _ (record {
    at = λ s p known.
        has_port-request_port_other _ _ _ _ _ _ (other_component c d q s different) h
        ∙ a.at s p known;
  })

  -- A request of one component for one of its host ports leaves each port that another
  -- component remembers allocated to that one, if it was before.
  pub request_port-Agrees_other : Agrees d h → Agrees d (request_port c h (host_port_name q)).0.1
  unfolding request_port
  request_port-Agrees_other a = request_missing-other _ a

  free_known-other :
      (o : Option ℕ) → Agrees d h → Agrees d (free_known_port o c h (host_port_name q)).0.1
  free_known-other none a = a
  free_known-other (some p) a = forget_port-other c d h q _ (record {
    at = λ s p known.
        has_port-free_port_other _ _ _ _ _ _ (other_component c d q s different) h ∙ a.at s p known;
  })

  -- A release by one component of one of its host ports leaves each port that another component
  -- remembers allocated to that one, if it was before.
  pub free_port-Agrees_other : Agrees d h → Agrees d (free_port c h (host_port_name q)).0.1
  unfolding free_port
  free_port-Agrees_other a = free_known-other _ a

-- On a well-formed hypervisor where each port that two components remember is allocated to
-- them, a port that both remember is one host port of one component.
pub host_ports-exclusive :
    (c d : Component) (h : Hypervisor) (q s : HostPort) (p : ℕ)
    → WellFormed h
    → Agrees c h
    → Agrees d h
    → Dict.lookup (host_port_name q) c.allocated_host_ports ≡ some p
    → Dict.lookup (host_port_name s) d.allocated_host_ports ≡ some p
    → SameIdentity c d × (q ≡ s)
host_ports-exclusive c d h q s p w a b e f =
    let (n, k, sub) = has_port-exclusive _ _ _ _ _ _ p h w (a.at q p e) (b.at s p f) in
    let (name, port) = with_subcomponent_name-injective c d q s sub in ((n, k, name), port)

record_WellFormed :
    (c : Component) (name : String) (g : Hypervisor × Result ℕ)
    → WellFormed g.0
    → WellFormed (record_port c name g).0.1
record_WellFormed c name (g, ok p) w = w
record_WellFormed c name (g, err e) w = w

forget_WellFormed :
    (c : Component) (name : String) (g : Hypervisor × Option Error)
    → WellFormed g.0
    → WellFormed (forget_port c name g).0.1
forget_WellFormed c name (g, none) w = w
forget_WellFormed c name (g, some e) w = w

request_missing-WellFormed :
    (c : Component) (h : Hypervisor) (name : String) (o : Option ℕ)
    → WellFormed h
    → WellFormed (request_missing_port o c h name).0.1
request_missing-WellFormed c h name (some p) w = w
request_missing-WellFormed c h name none w =
    record_WellFormed c name _
      (request_port-WellFormed h c.namespace c.cluster_name (with_subcomponent_name c name) w)

free_known-WellFormed :
    (c : Component) (h : Hypervisor) (name : String) (o : Option ℕ)
    → WellFormed h
    → WellFormed (free_known_port o c h name).0.1
free_known-WellFormed c h name none w = w
free_known-WellFormed c h name (some p) w =
    forget_WellFormed c name _
      (free_port-WellFormed h c.namespace c.cluster_name (with_subcomponent_name c name) w)

-- A component's requests keep the hypervisor well-formed.
pub request_port-WellFormed_component :
    (c : Component) (h : Hypervisor) (name : String)
    → WellFormed h
    → WellFormed (request_port c h name).0.1
unfolding request_port
request_port-WellFormed_component c h name w = request_missing-WellFormed c h name _ w

-- A component's releases keep the hypervisor well-formed.
pub free_port-WellFormed_component :
    (c : Component) (h : Hypervisor) (name : String)
    → WellFormed h
    → WellFormed (free_port c h name).0.1
unfolding free_port
free_port-WellFormed_component c h name w = free_known-WellFormed c h name _ w

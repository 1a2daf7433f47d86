-- ===== src/Component/HostPorts.antt =====
-- The ports that components remember against the ports that their hypervisor has allocated.
use oneinfra.Base.{ℕ, ◌≡◌, refl, ap, ◌∙◌, subst, ◌≢◌, Bool, true, Option, none, some, arith, eq_iff}
use oneinfra.Base.Errors.{Error, Result, ok, err}
use oneinfra.Dict
use oneinfra.Infra.Hypervisor.{Hypervisor}
use oneinfra.Infra.Ports
use oneinfra.Infra.Ports.{has_port}
use oneinfra.Infra.Ports.Lookup.{
  has_port-free_port_other, has_port-request_port_other, has_port-request_port_self, OtherOwner,
}
use oneinfra.Component.{
  request_port, request_missing_port, free_port, free_known_port, Component, with_subcomponent_name,
  record_port,
}
use oneinfra.Component.Names.{HostPort, host_port_name, with_subcomponent_name-injective}

-- The port that the hypervisor has allocated for a host port of the component.
abbrev pub allocation : Component → Hypervisor → HostPort → Bool × ℕ
allocation c h q =
    has_port h c.namespace c.cluster_name (with_subcomponent_name c (host_port_name q))

abbrev requested : Component → Hypervisor → HostPort → Hypervisor × Result ℕ
requested c h q =
    Ports.request_port h c.namespace c.cluster_name (with_subcomponent_name c (host_port_name q))

abbrev freed : Component → Hypervisor → HostPort → Hypervisor × Option Error
freed c h q =
    Ports.free_port h c.namespace c.cluster_name (with_subcomponent_name c (host_port_name q))

-- Each port that the component remembers is allocated to it on the hypervisor.
pub record Agrees (c : Component) (h : Hypervisor) : Type 0 where
  pub at :
      (q : HostPort) (p : ℕ)
      → Dict.lookup (host_port_name q) c.allocated_host_ports ≡ some p
      → allocation c h q ≡ (true, p)

abbrev pub SameIdentity : Component → Component → Type 0
SameIdentity c d =
    (c.namespace ≡ d.namespace) × (c.cluster_name ≡ d.cluster_name) × (c.name ≡ d.name)

-- Two host ports of one component are two owners for the hypervisor.
other_port :
    (c : Component) (q r : HostPort)
    → q ≢ r
    → OtherOwner c.namespace c.cluster_name
        (with_subcomponent_name c (host_port_name q))
        c.namespace
        c.cluster_name
        (with_subcomponent_name c (host_port_name r))
other_port c q r ne _ _ e = ne (with_subcomponent_name-injective c c q r e).1

-- So are host ports of two components.
pub other_component :
    (c d : Component) (q r : HostPort)
    → ¬ SameIdentity c d
    → OtherOwner c.namespace c.cluster_name
        (with_subcomponent_name c (host_port_name q))
        d.namespace
        d.cluster_name
        (with_subcomponent_name d (host_port_name r))
other_component c d q r ne n k e = ne (n, k, (with_subcomponent_name-injective c d q r e).0)

host_port_name-injective :
    (c : Component) (q r : HostPort) → host_port_name q ≡ host_port_name r → q ≡ r
host_port_name-injective c q r e =
    (with_subcomponent_name-injective c c q r (ap (with_subcomponent_name c) e)).1

HostPort-discrete : Discrete HostPort
HostPort-discrete = hlevel

-- A request for one host port leaves the other ports of the component allocated as they were.
allocation-request_other :
    (c : Component) (h : Hypervisor) (q s : HostPort)
    → ¬ Path HostPort q s
    → allocation c (requested c h q).0 s ≡ allocation c h s
allocation-request_other c h q s ne =
    has_port-request_port_other _ _ _ _ _ _ (other_port c q s ne) h

allocation-free_other :
    (c : Component) (h : Hypervisor) (q s : HostPort)
    → ¬ Path HostPort q s
    → allocation c (freed c h q).0 s ≡ allocation c h s
allocation-free_other c h q s ne = has_port-free_port_other _ _ _ _ _ _ (other_port c q s ne) h

record_port-Agrees :
    (c : Component) (h : Hypervisor) (q : HostPort) (r : Result ℕ)
    → Dict.lookup (host_port_name q) c.allocated_host_ports ≡ none
    → Agrees c h
    → let g = requested c h q in
      g.1 ≡ r
      → Agrees
          (record_port c (host_port_name q) (g.0, r)).0.0
          (record_port c (host_port_name q) (g.0, r)).0.1
unfolding with_subcomponent_name
record_port-Agrees c h q (err x) missing a e = record {
  at = λ s p known. elim (HostPort-discrete q s) [
    | yes same ↦ absurd (
        ground (
          arith,
          missing,
          known,
          ap (λ (u : HostPort). Dict.lookup (host_port_name u) c.allocated_host_ports) same,
        ))
    | no ne ↦ allocation-request_other c h q s ne ∙ a.at s p known
  ];
}
record_port-Agrees c h q (ok port) missing a e = record {
  at = λ s p known. elim (HostPort-discrete q s) [
    | yes same ↦
        let known' : some port ≡ some p = ground (
          arith,
          known,
          Dict.lookup-insert (host_port_name q) (host_port_name s) port c.allocated_host_ports,
          eq_iff (host_port_name q) (host_port_name s),
          ap host_port_name same,
        ) in
        subst (λ u. allocation c (requested c h q).0 u ≡ (true, p)) same
          (has_port-request_port_self c.namespace c.cluster_name
            (with_subcomponent_name c (host_port_name q)) h p (e ∙ ground arith))
    | no ne ↦
        allocation-request_other c h q s ne
        ∙ a.at s p (
            ground (
              arith,
              known,
              Dict.lookup-insert (host_port_name q) (host_port_name s) port c.allocated_host_ports,
              eq_iff (host_port_name q) (host_port_name s),
              λ (z : host_port_name q ≡ host_port_name s). ne (host_port_name-injective c q s z),
            ))
  ];
}

request_missing-Agrees :
    (c : Component) (h : Hypervisor) (q : HostPort) (o : Option ℕ)
    → Dict.lookup (host_port_name q) c.allocated_host_ports ≡ o
    → Agrees c h
    → let r = request_missing_port o c h (host_port_name q) in Agrees r.0.0 r.0.1
request_missing-Agrees c h q (some p) e a = a
request_missing-Agrees c h q none e a = record_port-Agrees c h q (requested c h q).1 e a refl

-- If each port that a component remembers is allocated to it on the hypervisor, the same holds
-- after RequestPort for one of its host ports, whether that failed or not.
pub request_port-Agrees :
    (c : Component) (h : Hypervisor) (q : HostPort)
    → Agrees c h
    → let r = request_port c h (host_port_name q) in Agrees r.0.0 r.0.1
unfolding request_port
request_port-Agrees c h q a = request_missing-Agrees c h q _ refl a

free_known-Agrees :
    (c : Component) (h : Hypervisor) (q : HostPort) (o : Option ℕ)
    → Agrees c h
    → let r = free_known_port o c h (host_port_name q) in Agrees r.0.0 r.0.1
unfolding Ports.free_port with_subcomponent_name
free_known-Agrees c h q none a = a
free_known-Agrees c h q (some _) a = record {
  at = λ s p known.
      let gone = Dict.lookup-delete (host_port_name q) (host_port_name s) c.allocated_host_ports in
      elim (HostPort-discrete q s) [
        | yes same ↦ absurd (
            ground (
              arith,
              known,
              gone,
              eq_iff (host_port_name q) (host_port_name s),
              ap host_port_name same,
            ))
        | no ne ↦
            allocation-free_other c h q s ne
            ∙ a.at s p (
                ground (
                  arith,
                  known,
                  gone,
                  eq_iff (host_port_name q) (host_port_name s),
                  λ (z : host_port_name q ≡ host_port_name s).
                      ne (host_port_name-injective c q s z),
                ))
      ];
}

-- If each port that a component remembers is allocated to it on the hypervisor, the same holds
-- after FreePort for one of its host ports.
pub free_port-Agrees :
    (c : Component) (h : Hypervisor) (q : HostPort)
    → Agrees c h
    → let r = free_port c h (host_port_name q) in Agrees r.0.0 r.0.1
unfolding free_port
free_port-Agrees c h q a = free_known-Agrees c h q _ a

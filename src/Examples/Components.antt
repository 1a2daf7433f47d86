-- ===== src/Examples/Components.antt =====
-- Components that share a hypervisor.
use oneinfra.Component.Names.{host_port_name, api_server_host_port_name, api_server}
use oneinfra.Base.Errors.{Result}
use oneinfra.Infra.Hypervisor.{Hypervisor}
use oneinfra.Component.Sharing.{
  free_port-Agrees_other, host_ports-exclusive, request_port-Agrees_other,
  request_port-WellFormed_component,
}
use oneinfra.Examples.{host_a-WellFormed, host_a, component_b, component_a}
use oneinfra.Component.{Component}
use oneinfra.Infra.Ports.Invariant.{WellFormed}
use oneinfra.Component.HostPorts.{free_port-Agrees, request_port-Agrees, Agrees, SameIdentity}
use oneinfra.Base.{ℕ, ◌≡◌, refl, sym, some, [], arith, eq_iff}
use oneinfra.Component
use oneinfra.Dict
use oneinfra.Infra.Ports

different : ¬ SameIdentity component_a component_b
different e = ground (arith, e.2, eq_iff "cluster-control-plane-a" "cluster-control-plane-b")

nothing_remembered : (c : Component) → c.allocated_host_ports ≡ [] → (h : Hypervisor) → Agrees c h
unfolding Dict.lookup
nothing_remembered c e h = record { at = λ q p known. absurd (cc) }

abbrev after_a : (Component × Hypervisor) × Result ℕ
after_a = Component.request_port component_a host_a api_server_host_port_name

after_a-Agrees : Agrees after_a.0.0 after_a.0.1
after_a-Agrees =
    request_port-Agrees component_a host_a api_server (nothing_remembered component_a refl host_a)

after_a-WellFormed : WellFormed after_a.0.1
after_a-WellFormed =
    request_port-WellFormed_component component_a host_a api_server_host_port_name host_a-WellFormed

abbrev after_b : (Component × Hypervisor) × Result ℕ
after_b = Component.request_port component_b after_a.0.1 api_server_host_port_name

after_b-WellFormed : WellFormed after_b.0.1
after_b-WellFormed =
    request_port-WellFormed_component component_b after_a.0.1 api_server_host_port_name
      after_a-WellFormed

after_b-Agrees : Agrees after_b.0.0 after_b.0.1
after_b-Agrees =
    request_port-Agrees component_b after_a.0.1 api_server
      (nothing_remembered component_b refl after_a.0.1)

b_is_not_a : ¬ SameIdentity component_b after_a.0.0
unfolding Component.request_port Ports.request_port Ports.has_port Dict.lookup Dict.insert
b_is_not_a e = different (refl, refl, sym e.2)

after_b-Agrees_a : Agrees after_a.0.0 after_b.0.1
after_b-Agrees_a =
    request_port-Agrees_other component_b after_a.0.0 b_is_not_a after_a.0.1 api_server
      after_a-Agrees

request_port-Agrees_example : Agrees after_b.0.0 after_b.0.1
request_port-Agrees_example =
    request_port-Agrees component_b after_a.0.1 api_server
      (nothing_remembered component_b refl after_a.0.1)

free_port-Agrees_example :
    let r = Component.free_port after_b.0.0 after_b.0.1 (host_port_name api_server) in
    Agrees r.0.0 r.0.1
free_port-Agrees_example = free_port-Agrees after_b.0.0 after_b.0.1 api_server after_b-Agrees

request_port-Agrees_other_example : Agrees after_a.0.0 after_b.0.1
request_port-Agrees_other_example =
    request_port-Agrees_other component_b after_a.0.0 b_is_not_a after_a.0.1 api_server
      after_a-Agrees

free_port-Agrees_other_example :
    Agrees after_a.0.0 (Component.free_port component_b after_b.0.1 (host_port_name api_server)).0.1
free_port-Agrees_other_example =
    free_port-Agrees_other component_b after_a.0.0 b_is_not_a after_b.0.1 api_server
      after_b-Agrees_a

a_knows : Dict.lookup (host_port_name api_server) after_a.0.0.allocated_host_ports ≡ some 30000
unfolding Component.request_port Ports.request_port Dict.lookup Dict.insert Ports.has_port
a_knows = refl

host_ports-exclusive_example : SameIdentity after_a.0.0 after_a.0.0 × (api_server ≡ api_server)
host_ports-exclusive_example =
    host_ports-exclusive after_a.0.0 after_a.0.0 after_b.0.1 api_server api_server 30000
      after_b-WellFormed after_b-Agrees_a after_b-Agrees_a a_knows a_knows

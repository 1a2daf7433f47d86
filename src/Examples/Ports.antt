-- ===== src/Examples/Ports.antt =====
-- Runs of RequestPort and FreePort.
use oneinfra.Infra.Ports.Owners.{ports}
use oneinfra.Base.Errors.{errorf, err, ok}
use oneinfra.Examples.{host_a-WellFormed, host_a}
use oneinfra.Infra.Ports.Exclusive.{request_port_refused}
use oneinfra.Infra.Ports.Granted.{request_port_grants}
use oneinfra.Infra.Ports.Lookup.{OtherOwner}
use oneinfra.Infra.Ports.Invariant.{WellFormed}
use oneinfra.Infra.Hypervisor.{Hypervisor}
use oneinfra.Infra.Ports.{request_port, free_port, has_port}
use oneinfra.Infra.Ports.History.{
  run-accounted, untouched, frees, run-WellFormed, step, requests, run, Call, IsFresh,
  run-exclusive,
}
use mathlib.Core.List.{Perm}
use oneinfra.Base.{
  suc, ◌+◌, ◌-◌, ◌≤◌, String, ◌≡◌, refl, ◌↔◌, true, false, List, [], ◌∷◌, ◌++◌, arith, length,
  range_from,
}

-- A port is requested, freed, and given to another owner.
abbrev calls : List Call
calls =
    requests "default" "cluster" "api"
    ∷ requests "default" "cluster" "etcd"
    ∷ frees "default" "cluster" "api"
    ∷ requests "default" "other" "api"
    ∷ []

host_a-IsFresh : IsFresh host_a
host_a-IsFresh = (refl, refl, ground arith)

abbrev held : Hypervisor
held = run host_a calls

held-WellFormed : WellFormed held
held-WellFormed = run-WellFormed host_a calls host_a-WellFormed

other_holds : has_port held "default" "other" "api" ≡ (true, 30000)
unfolding run step request_port free_port has_port
other_holds = refl

run-exclusive_example :
    ◌≡◌ {A = String} "default" "default"
    × ◌≡◌ {A = String} "other" "other"
    × ◌≡◌ {A = String} "api" "api"
run-exclusive_example =
    run-exclusive host_a calls "default" "other" "api" "default" "other" "api" 30000 host_a-IsFresh
      other_holds other_holds

run-accounted_example :
    Perm
      ((ports held.allocated_ports ++ held.freed_ports) ++ untouched held)
      (range_from host_a.port_range_low (suc host_a.port_range_high - host_a.port_range_low))
run-accounted_example = run-accounted host_a calls host_a-IsFresh

granted : (request_port held "x" "y" "z").1 ≡ ok 30002
unfolding run step request_port free_port has_port
granted = refl

request_port_grants_example :
    let h' = (request_port held "x" "y" "z").0 in
    ((held.port_range_low ≤ 30002) × (30002 ≤ held.port_range_high))
    × (has_port h' "x" "y" "z" ≡ (true, 30002))
    × ((n' c' k' : String)
        → has_port h' n' c' k' ≡ (true, 30002)
        → ("x" ≡ n') × ("y" ≡ c') × ("z" ≡ k'))
    × ((n' c' k' : String)
        → OtherOwner "x" "y" "z" n' c' k'
        → has_port h' n' c' k' ≡ has_port held n' c' k')
request_port_grants_example = request_port_grants held "x" "y" "z" 30002 held-WellFormed granted

request_port_refused_example :
    (request_port held "x" "y" "z"
      ≡ (held, err (errorf "no available ports on hypervisor %q" (held.name ∷ []))))
    ↔ (((has_port held "x" "y" "z").0 ≡ false)
        × (held.port_range_low + length held.allocated_ports ≡ suc held.port_range_high))
request_port_refused_example = request_port_refused held "x" "y" "z" held-WellFormed

requested : (request_port held "default" "other" "api").1 ≡ ok 30000
unfolding run step request_port free_port has_port
requested = refl

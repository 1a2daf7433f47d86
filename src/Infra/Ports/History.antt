-- ===== src/Infra/Ports/History.antt =====
-- Any sequence of requests and releases of ports on one hypervisor.
use oneinfra.Infra.Ports.Exclusive.{has_port-exclusive}
use oneinfra.Base.{
  ℕ, zero, suc, ◌+◌, ◌-◌, ◌≤◌, String, ◌≡◌, refl, ap, ap₂, ◌∙◌, subst, true, Option, none, some,
  List, [], ◌∷◌, ◌++◌, arith, length, range_from,
}
use oneinfra.Infra.Hypervisor.{HypervisorPortAllocation, HypervisorPortAllocationList, Hypervisor}
use oneinfra.Infra.Ports.{free_dropped, has_port, request_port, free_port}
use oneinfra.Infra.Ports.Owners.{ports}
use oneinfra.Infra.Ports.Invariant.{WellFormed}
use oneinfra.Infra.Ports.Preservation.{request_port-WellFormed, free_port-WellFormed}
use mathlib.Core.List.{Perm}
use mathlib.Core.List.Perm

pub data Call : Type 0 where
  requests frees : String → String → String → Call

unfoldable pub step : Hypervisor → Call → Hypervisor
step h (requests n c k) = (request_port h n c k).0
step h (frees n c k) = (free_port h n c k).0

unfoldable pub run : Hypervisor → List Call → Hypervisor
unfolding step
run h [] = h
run h (call ∷ calls) = run (step h call) calls

step-WellFormed : (h : Hypervisor) (call : Call) → WellFormed h → WellFormed (step h call)
unfolding step
step-WellFormed h (requests n c k) w = request_port-WellFormed h n c k w
step-WellFormed h (frees n c k) w = free_port-WellFormed h n c k w

pub run-WellFormed : (h : Hypervisor) (calls : List Call) → WellFormed h → WellFormed (run h calls)
unfolding run
run-WellFormed h [] w = w
run-WellFormed h (call ∷ calls) w = run-WellFormed (step h call) calls (step-WellFormed h call w)

-- The ports of the range that have never been assigned.
abbrev pub untouched : Hypervisor → List ℕ
untouched h =
    range_from (h.port_range_low + (length h.allocated_ports + length h.freed_ports)) (
      suc h.port_range_high
      - (h.port_range_low + (length h.allocated_ports + length h.freed_ports)))

-- A hypervisor that starts without allocations, and whose range is not reversed.
abbrev pub IsFresh : Hypervisor → Type 0
IsFresh h =
    (h.allocated_ports ≡ []) × (h.freed_ports ≡ []) × (h.port_range_low ≤ suc h.port_range_high)

pub fresh-WellFormed : (h : Hypervisor) → IsFresh h → WellFormed h
fresh-WellFormed h (a, f, r) = record {
  distinct = rw a tt;
  contiguous = rw (a, f) (Perm.refl []);
  fits = rw (a, f) (omega arith);
}

range_from-append : (lo m n : ℕ) → range_from lo (m + n) ≡ range_from lo m ++ range_from (lo + m) n
range_from-append lo zero n =
    ap₂ (λ (a b : ℕ). range_from a b) {x = lo} {y = lo + 0} (omega arith) (omega arith)
range_from-append lo (suc m) n =
    let len : suc m + n ≡ suc (m + n) = omega arith in
    let start : suc lo + m ≡ lo + suc m = omega arith in
    rw len (ap (λ t. lo ∷ t) (range_from-append (suc lo) m n ∙ rw start refl))

abbrev SameRange : Hypervisor → Hypervisor → Type 0
SameRange h g = (g.port_range_low ≡ h.port_range_low) × (g.port_range_high ≡ h.port_range_high)

free_dropped-SameRange :
    (h : Hypervisor) (r : HypervisorPortAllocationList × Option HypervisorPortAllocation)
    → SameRange h (free_dropped h r)
free_dropped-SameRange h (l, none) = (refl, refl)
free_dropped-SameRange h (l, some x) = (refl, refl)

step-SameRange : (h : Hypervisor) (call : Call) → SameRange h (step h call)
unfolding step request_port free_port
step-SameRange h (requests n c k) = ground arith
step-SameRange h (frees n c k) = free_dropped-SameRange h _

run-SameRange : (h : Hypervisor) (calls : List Call) → SameRange h (run h calls)
unfolding run
run-SameRange h [] = (refl, refl)
run-SameRange h (call ∷ calls) =
    let (low, high) = run-SameRange (step h call) calls in
    let (low', high') = step-SameRange h call in (low ∙ low', high ∙ high')

-- In a well-formed hypervisor each port of the range is in use, freed or untouched, and only once.
accounted :
    (h : Hypervisor)
    → WellFormed h
    → Perm
        ((ports h.allocated_ports ++ h.freed_ports) ++ untouched h)
        (range_from h.port_range_low (suc h.port_range_high - h.port_range_low))
accounted h w =
    let used : ℕ = length h.allocated_ports + length h.freed_ports in
    let room : ℕ = suc h.port_range_high - (h.port_range_low + used) in
    let len : suc h.port_range_high - h.port_range_low ≡ used + room = omega (arith, w.fits) in
    rw (len, range_from-append h.port_range_low used room)
      (Perm.append w.contiguous (Perm.refl (untouched h)))

-- From a hypervisor without allocations and freed ports, whose range is not reversed, after any sequence
-- of requests and releases, the ports that are allocated, those that are freed and those that
-- were never assigned are together the ports of the range, each once.
pub run-accounted :
    (h : Hypervisor) (calls : List Call)
    → IsFresh h
    → let g = run h calls in
      Perm
        ((ports g.allocated_ports ++ g.freed_ports) ++ untouched g)
        (range_from h.port_range_low (suc h.port_range_high - h.port_range_low))
run-accounted h calls fresh =
    let (low, high) = run-SameRange h calls in
    let g : Hypervisor = run h calls in
    subst (Perm ((ports g.allocated_ports ++ g.freed_ports) ++ untouched g))
      (ap₂ (λ (lo hi : ℕ). range_from lo (suc hi - lo)) low high)
      (accounted g (run-WellFormed h calls (fresh-WellFormed h fresh)))

-- From a hypervisor without allocations and freed ports, whose range is not reversed, after any sequence
-- of requests and releases, two owners that have the same port are one owner.
pub run-exclusive :
    (h : Hypervisor) (calls : List Call) (n c k n' c' k' : String) (p : ℕ)
    → IsFresh h
    → has_port (run h calls) n c k ≡ (true, p)
    → has_port (run h calls) n' c' k' ≡ (true, p)
    → (n ≡ n') × (c ≡ c') × (k ≡ k')
run-exclusive h calls n c k n' c' k' p fresh =
    has_port-exclusive n c k n' c' k' p (run h calls)
      (run-WellFormed h calls (fresh-WellFormed h fresh))

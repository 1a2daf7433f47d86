-- ===== src/Infra/Ports/Exclusive.antt =====
-- No two owners hold one port, every port lies in the range, and none is refused before its end.
use oneinfra.Base.{
  ℕ, suc, ◌+◌, ◌≤◌, String, ◌≡◌, refl, sym, ap, subst, ◌↔◌, inl, inr, Bool, true, false, List, [],
  ◌∷◌, arith, eq_iff, ltb, Bool-cases, length, mem-range_from, range_from-Nodup,
}
use oneinfra.Base.Errors.{Result, err, errorf}
use oneinfra.Infra.Hypervisor.{HypervisorPortAllocation, HypervisorPortAllocationList, Hypervisor}
use oneinfra.Infra.Ports.{owned_by, request_new_port, request_port, find_port, has_port}
use oneinfra.Infra.Ports.Owners.{ports}
use oneinfra.Infra.Ports.Invariant.{WellFormed}
use mathlib.Core.List.{Mem, Nodup, Nodup-cons, mem-cons_self, mem-cons_of_mem, mem-append_left}
use mathlib.Core.List.Perm
use mathlib.Core.List.Nodup

find_port-mem :
    (n c k : String) (p : ℕ) (l : HypervisorPortAllocationList)
    → find_port n c k l ≡ (true, p)
    → Mem p (ports l)
unfolding find_port
find_port-mem n c k p [] e = cc
find_port-mem n c k p (a ∷ rest) e = elim (Bool-cases (owned_by n c k a)) [
  | inl o ↦
      subst (λ q. Mem q (ports (a ∷ rest))) (ap (λ (r : Bool × ℕ). r.1) (rw o at e)) mem-cons_self
  | inr o ↦ mem-cons_of_mem a.port (find_port-mem n c k p rest (rw o at e))
]

-- The first allocation has port p, and so has an owner's allocation in the rest.
head_in_rest :
    (n c k : String) (p : ℕ) (a : HypervisorPortAllocation) (rest : HypervisorPortAllocationList)
    → ◌≡◌ {A = Bool × ℕ} (true, a.port) (true, p)
    → find_port n c k rest ≡ (true, p)
    → Mem a.port (ports rest)
head_in_rest n c k p a rest head e =
    subst (λ q. Mem q (ports rest)) (sym (ap (λ (r : Bool × ℕ). r.1) head))
      (find_port-mem n c k p rest e)

module _ (n c k n' c' k' : String) (p : ℕ) where
  abbrev SameOwner : Type 0
  SameOwner = (n ≡ n') × (c ≡ c') × (k ≡ k')

  owned_by-both :
      (a : HypervisorPortAllocation)
      → owned_by n c k a ≡ true
      → owned_by n' c' k' a ≡ true
      → SameOwner
  owned_by-both a o o' = ground (
    arith,
    eq_iff a.cluster_namespace n,
    eq_iff a.cluster_namespace n',
    eq_iff a.cluster c,
    eq_iff a.cluster c',
    eq_iff a.component k,
    eq_iff a.component k',
  )

  find_port-exclusive :
      (l : HypervisorPortAllocationList)
      → Nodup (ports l)
      → find_port n c k l ≡ (true, p)
      → find_port n' c' k' l ≡ (true, p)
      → SameOwner
  unfolding find_port
  find_port-exclusive [] d e e' = cc
  find_port-exclusive (a ∷ rest) d e e' = elim (Bool-cases (owned_by n c k a)) [
    | inl o ↦ elim (Bool-cases (owned_by n' c' k' a)) [
      | inl o' ↦ owned_by-both a o o'
      | inr o' ↦
          absurd ((Nodup-cons.0 d).0 (head_in_rest n' c' k' p a rest (rw o at e) (rw o' at e')))
    ]
    | inr o ↦ elim (Bool-cases (owned_by n' c' k' a)) [
      | inl o' ↦ absurd ((Nodup-cons.0 d).0 (head_in_rest n c k p a rest (rw o' at e') (rw o at e)))
      | inr o' ↦ find_port-exclusive rest (Nodup-cons.0 d).1 (rw o at e) (rw o' at e')
    ]
  ]

  -- In a well-formed hypervisor a port belongs to one owner only.
  pub has_port-exclusive :
      (h : Hypervisor)
      → WellFormed h
      → has_port h n c k ≡ (true, p)
      → has_port h n' c' k' ≡ (true, p)
      → SameOwner
  unfolding has_port
  has_port-exclusive h w e e' =
      find_port-exclusive h.allocated_ports
        (Nodup.of_append_left h.freed_ports
          (Perm.nodup (Perm.symm w.contiguous) (range_from-Nodup _ _)))
        e e'

-- In a well-formed hypervisor the port that an owner holds lies in the range of the hypervisor.
pub has_port_in_range :
    (h : Hypervisor) (n c k : String) (p : ℕ)
    → WellFormed h
    → has_port h n c k ≡ (true, p)
    → (h.port_range_low ≤ p) × (p ≤ h.port_range_high)
unfolding has_port
has_port_in_range h n c k p w e =
    let m =
      Perm.subset w.contiguous p
        (mem-append_left h.freed_ports (find_port-mem n c k p h.allocated_ports e)) in
    omega (
      arith,
      mem-range_from p h.port_range_low (length h.allocated_ports + length h.freed_ports) m,
      w.fits,
    )

abbrev no_ports : Hypervisor → Hypervisor × Result ℕ
no_ports h = (h, err (errorf "no available ports on hypervisor %q" (h.name ∷ [])))

request_new_port_refused :
    (freed : List ℕ) (h : Hypervisor) (n c k : String)
    → h.freed_ports ≡ freed
    → WellFormed h
    → (request_new_port freed h n c k ≡ no_ports h)
      ↔ (h.port_range_low + length h.allocated_ports ≡ suc h.port_range_high)
request_new_port_refused (f ∷ rest) h n c k e w = (
  (λ q. absurd (ground (arith, ap (λ (r : Hypervisor × Result ℕ). r.1) q))),
  (λ q. absurd (omega (arith, ap length e, w.fits))),
)
request_new_port_refused [] h n c k e w =
    elim (Bool-cases (ltb h.port_range_high (h.port_range_low + length h.allocated_ports))) [
      | inl full ↦ rw full ((λ _. ground (arith, w.fits)), (λ _. refl))
      | inr room ↦ rw room (
        (λ q. absurd (ground (arith, ap (λ (r : Hypervisor × Result ℕ). r.1) q))),
        (λ q. absurd (ground arith)),
      )
    ]

-- A well-formed hypervisor is left as it was, with the error that no port is available, exactly
-- if the owner has no port and every port of the range is allocated.
pub request_port_refused :
    (h : Hypervisor) (n c k : String)
    → WellFormed h
    → (request_port h n c k ≡ no_ports h) ↔ (
        ((has_port h n c k).0 ≡ false)
        × (h.port_range_low + length h.allocated_ports ≡ suc h.port_range_high))
unfolding request_port
request_port_refused h n c k w = elim (Bool-cases (has_port h n c k).0) [
  | inl found ↦ rw found (
    (λ q. absurd (ground (arith, ap (λ (r : Hypervisor × Result ℕ). r.1) q))),
    (λ q. absurd (ground (arith, q.0))),
  )
  | inr missing ↦
      let (to, from) = request_new_port_refused h.freed_ports h n c k refl w in
      rw missing ((λ q. (refl, to q)), (λ q. from q.1))
]

-- ===== src/Infra/Ports/Preservation.antt =====
-- RequestPort and FreePort keep the invariant of the port allocations.
use oneinfra.Base.{
  ℕ, suc, ◌+◌, ◌≤◌, String, ◌≡◌, refl, ap, inl, inr, Option, none, some, List, [], ◌∷◌, ◌++◌,
  append_assoc, append-nil, map-append, arith, ltb, Bool-cases, length, length-append, range_from,
  range_from-snoc,
}
use oneinfra.Infra.Hypervisor.{HypervisorPortAllocation, HypervisorPortAllocationList, Hypervisor}
use oneinfra.Infra.Ports.{
  new_allocation, allocate, request_new_port, request_port, free_port, free_dropped, has_port,
}
use oneinfra.Infra.Ports.Owners.{ports, kept, last_owned, NotOwned, free_loop_lem}
use oneinfra.Infra.Ports.Invariant.{
  WellFormed, Dropped, NotOwned-of_find, DistinctOwners-snoc, DistinctOwners-kept, kept-Dropped,
}
use mathlib.Core.List.{Perm, perm_append_singleton}
use mathlib.Core.List.Perm

abbrev Contiguous : ℕ → HypervisorPortAllocationList → List ℕ → Type 0
Contiguous lo l freed = Perm (ports l ++ freed) (range_from lo (length l + length freed))

ports-snoc :
    (l : HypervisorPortAllocationList) (a : HypervisorPortAllocation) (freed : List ℕ)
    → ports (l ++ a ∷ []) ++ freed ≡ ports l ++ a.port ∷ freed
ports-snoc l a freed = rw (map-append _ l (a ∷ [])) (append_assoc (ports l) (a.port ∷ []) freed)

-- An allocation of the first freed port.
Contiguous-reuse :
    (lo : ℕ) (l : HypervisorPortAllocationList) (a : HypervisorPortAllocation) (freed : List ℕ)
    → Contiguous lo l (a.port ∷ freed)
    → Contiguous lo (l ++ a ∷ []) freed
Contiguous-reuse lo l a freed p =
    let len : length (l ++ a ∷ []) + length freed ≡ length l + suc (length freed) =
      omega (arith, length-append l (a ∷ [])) in
    rw (ports-snoc l a freed, len) p

-- An allocation of the next port, where none is freed.
Contiguous-next :
    (lo : ℕ) (l : HypervisorPortAllocationList) (a : HypervisorPortAllocation)
    → a.port ≡ lo + length l
    → Contiguous lo l []
    → Contiguous lo (l ++ a ∷ []) []
Contiguous-next lo l a e p =
    let len : length (l ++ a ∷ []) + 0 ≡ suc (length l) = omega (arith, length-append l (a ∷ [])) in
    let same : length l + 0 ≡ length l = omega arith in
    rw (ports-snoc l a [], len, range_from-snoc lo (length l), e)
      (Perm.append (rw (append-nil, same) at p) (Perm.refl _))

-- A freed port moves to the end of the freed ports.
Contiguous-free :
    (lo : ℕ) (n c k : String) (l : HypervisorPortAllocationList) (freed : List ℕ)
    (x : HypervisorPortAllocation)
    → Dropped n c k l x
    → Contiguous lo l freed
    → Contiguous lo (kept n c k l) (freed ++ x.port ∷ [])
Contiguous-free lo n c k l freed x d p =
    let len : length (kept n c k l) + length (freed ++ x.port ∷ []) ≡ length l + length freed =
      omega (arith, length-append freed (x.port ∷ []), d.1) in
    rw len (
      Perm.trans
        (rw (← append_assoc (ports (kept n c k l)) freed (x.port ∷ []))
          (Perm.trans (perm_append_singleton x.port _) (Perm.append_right freed (Perm.symm d.0))))
        p)

module _ (n c k : String) where
  allocate_freed-WellFormed :
      (h : Hypervisor) (freed : ℕ) (rest : List ℕ)
      → h.freed_ports ≡ freed ∷ rest
      → NotOwned n c k h.allocated_ports
      → WellFormed h
      → WellFormed (allocate (record h { freed_ports = rest }) n c k freed)
  allocate_freed-WellFormed h freed rest e none_owned w = record {
    distinct = DistinctOwners-snoc n c k freed h.allocated_ports none_owned w.distinct;
    contiguous = Contiguous-reuse h.port_range_low h.allocated_ports _ rest (rw e at w.contiguous);
    fits = omega (
      arith,
      length-append h.allocated_ports (new_allocation n c k freed ∷ []),
      ap length e,
      w.fits,
    );
  }

  allocate_next-WellFormed :
      (h : Hypervisor)
      → h.freed_ports ≡ []
      → NotOwned n c k h.allocated_ports
      → WellFormed h
      → h.port_range_low + length h.allocated_ports ≤ h.port_range_high
      → WellFormed (allocate h n c k (h.port_range_low + length h.allocated_ports))
  allocate_next-WellFormed h e none_owned w room = record {
    distinct = DistinctOwners-snoc n c k _ h.allocated_ports none_owned w.distinct;
    contiguous =
        rw e (Contiguous-next h.port_range_low h.allocated_ports _ refl (rw e at w.contiguous));
    fits = omega (
      arith,
      length-append h.allocated_ports
          (new_allocation n c k (h.port_range_low + length h.allocated_ports) ∷ []),
      ap length e,
      w.fits,
    );
  }

  request_new_port-WellFormed :
      (freed : List ℕ) (h : Hypervisor)
      → h.freed_ports ≡ freed
      → NotOwned n c k h.allocated_ports
      → WellFormed h
      → WellFormed (request_new_port freed h n c k).0
  request_new_port-WellFormed (freed ∷ rest) h e none_owned w =
      allocate_freed-WellFormed h freed rest e none_owned w
  request_new_port-WellFormed [] h e none_owned w =
      elim (Bool-cases (ltb h.port_range_high (h.port_range_low + length h.allocated_ports))) [
        | inl full ↦ rw full w
        | inr room ↦ rw room (allocate_next-WellFormed h e none_owned w (ground arith))
      ]

-- A well-formed hypervisor is well-formed after RequestPort, whether that found, assigned or
-- refused a port.
pub request_port-WellFormed :
    (h : Hypervisor) (n c k : String) → WellFormed h → WellFormed (request_port h n c k).0
unfolding request_port
request_port-WellFormed h n c k w = elim (Bool-cases (has_port h n c k).0) [
  | inl found ↦ rw found w
  | inr missing ↦ rw missing (
      request_new_port-WellFormed n c k h.freed_ports h refl
        (NotOwned-of_find n c k h.allocated_ports missing) w)
]

free_dropped-WellFormed :
    (h : Hypervisor) (n c k : String) (o : Option HypervisorPortAllocation)
    → last_owned n c k h.allocated_ports none ≡ o
    → WellFormed h
    → WellFormed (free_dropped h (kept n c k h.allocated_ports, o))
free_dropped-WellFormed h n c k none e w = w
free_dropped-WellFormed h n c k (some x) e w =
    let d = kept-Dropped n c k h.allocated_ports x w.distinct e in
    record {
      distinct = DistinctOwners-kept n c k h.allocated_ports w.distinct;
      contiguous =
          Contiguous-free h.port_range_low n c k h.allocated_ports h.freed_ports x d w.contiguous;
      fits = omega (arith, length-append h.freed_ports (x.port ∷ []), d.1, w.fits);
    }

-- A well-formed hypervisor is well-formed after FreePort.
pub free_port-WellFormed :
    (h : Hypervisor) (n c k : String) → WellFormed h → WellFormed (free_port h n c k).0
unfolding free_port
free_port-WellFormed h n c k w =
    rw (free_loop_lem n c k h.allocated_ports [] none) (free_dropped-WellFormed h n c k _ refl w)

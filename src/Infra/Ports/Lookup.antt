-- ===== src/Infra/Ports/Lookup.antt =====
-- RequestPort and FreePort as a client sees them, through HasPort.
use oneinfra.Base.{
  ℕ, ◌+◌, String, ◌≡◌, refl, sym, ◌∙◌, ◌≢◌, inl, inr, true, false, Option, none, some, List, [],
  ◌∷◌, ◌++◌, arith, eq_iff, eq_refl, ltb, Bool-cases, length,
}
use oneinfra.Infra.Hypervisor.{Hypervisor, HypervisorPortAllocation, HypervisorPortAllocationList}
use oneinfra.Infra.Ports.{
  request_new_port, ok, free_dropped, request_port, has_port, free_port, owned_by, new_allocation,
  find_port,
}
use oneinfra.Infra.Ports.Owners.{free_loop_lem, NotOwned, last_owned, kept_of_NotOwned, kept}

find_port-snoc_self :
    (n c k : String) (p : ℕ) (l : HypervisorPortAllocationList)
    → (find_port n c k l).0 ≡ false
    → find_port n c k (l ++ new_allocation n c k p ∷ []) ≡ (true, p)
unfolding find_port
find_port-snoc_self n c k p [] h = simp (eq_refl)
find_port-snoc_self n c k p (a ∷ rest) h = ground (arith, find_port-snoc_self n c k p rest)

module _ (n c k n' c' k' : String) where
  -- Another owner's question is not answered by an allocation of (n, c, k).
  abbrev pub OtherOwner : Type 0
  OtherOwner = (n ≡ n') → (c ≡ c') → (k ≡ k') → ⊥

  owned_by_other :
      (a : HypervisorPortAllocation)
      → OtherOwner
      → owned_by n c k a ≡ true
      → owned_by n' c' k' a ≡ false
  owned_by_other a other h = elim (Bool-cases (owned_by n' c' k' a)) [
    | inl e ↦ absurd (
        other (ground (arith, eq_iff a.cluster_namespace n, eq_iff a.cluster_namespace n'))
          (ground (arith, eq_iff a.cluster c, eq_iff a.cluster c'))
          (ground (arith, eq_iff a.component k, eq_iff a.component k')))
    | inr e ↦ e
  ]

  find_port-snoc_other :
      (p : ℕ) (l : HypervisorPortAllocationList)
      → OtherOwner
      → find_port n' c' k' (l ++ new_allocation n c k p ∷ []) ≡ find_port n' c' k' l
  unfolding find_port
  find_port-snoc_other p [] other =
      rw (owned_by_other (new_allocation n c k p) other (simp eq_refl))
  find_port-snoc_other p (a ∷ rest) other = rw (find_port-snoc_other p rest other)

  find_port-kept_other :
      (l : HypervisorPortAllocationList)
      → OtherOwner
      → find_port n' c' k' (kept n c k l) ≡ find_port n' c' k' l
  unfolding find_port
  find_port-kept_other [] other = refl
  find_port-kept_other (a ∷ rest) other = elim (Bool-cases (owned_by n c k a)) [
    | inl e ↦ rw (e, owned_by_other a other e) (find_port-kept_other rest other)
    | inr e ↦ rw e (rw (find_port-kept_other rest other))
  ]

find_port-kept_self :
    (n c k : String) (l : HypervisorPortAllocationList)
    → find_port n c k (kept n c k l) ≡ (false, 0)
unfolding find_port
find_port-kept_self n c k [] = refl
find_port-kept_self n c k (a ∷ rest) = elim (Bool-cases (owned_by n c k a)) [
  | inl e ↦ rw e (find_port-kept_self n c k rest)
  | inr e ↦ rw e (rw e (find_port-kept_self n c k rest))
]

module _ (n c k : String) where
  last_owned-some :
      (l : HypervisorPortAllocationList) (x : HypervisorPortAllocation)
      → last_owned n c k l (some x) ≢ none
  last_owned-some [] x h = cc
  last_owned-some (a ∷ rest) x h = elim (Bool-cases (owned_by n c k a)) [
    | inl e ↦ last_owned-some rest a (rw e at h)
    | inr e ↦ last_owned-some rest x (rw e at h)
  ]

  NotOwned-of_last_owned :
      (l : HypervisorPortAllocationList) → last_owned n c k l none ≡ none → NotOwned n c k l
  NotOwned-of_last_owned [] h = tt
  NotOwned-of_last_owned (a ∷ rest) h = elim (Bool-cases (owned_by n c k a)) [
    | inl e ↦ absurd (last_owned-some rest a (rw e at h))
    | inr e ↦ (e, NotOwned-of_last_owned rest (rw e at h))
  ]

  allocated-free_dropped :
      (h : Hypervisor) (o : Option HypervisorPortAllocation)
      → last_owned n c k h.allocated_ports none ≡ o
      → (free_dropped h (kept n c k h.allocated_ports, o)).allocated_ports
        ≡ kept n c k h.allocated_ports
  allocated-free_dropped h none e =
      sym (kept_of_NotOwned n c k h.allocated_ports (NotOwned-of_last_owned h.allocated_ports e))
  allocated-free_dropped h (some x) e = refl

  -- FreePort drops exactly the allocations of the owner that it is given.
  pub allocated-free_port :
      (h : Hypervisor) → (free_port h n c k).0.allocated_ports ≡ kept n c k h.allocated_ports
  unfolding free_port
  allocated-free_port h =
      rw (free_loop_lem n c k h.allocated_ports [] none) (allocated-free_dropped h _ refl)

  -- After FreePort, whatever was allocated before, HasPort finds no port for that owner.
  pub has_port-free_port_self : (h : Hypervisor) → has_port (free_port h n c k).0 n c k ≡ (false, 0)
  unfolding has_port
  has_port-free_port_self h =
      rw (allocated-free_port h) (find_port-kept_self n c k h.allocated_ports)

  request_new_port_self :
      (freed : List ℕ) (h : Hypervisor) (p : ℕ)
      → (has_port h n c k).0 ≡ false
      → (request_new_port freed h n c k).1 ≡ ok p
      → has_port (request_new_port freed h n c k).0 n c k ≡ (true, p)
  unfolding has_port
  request_new_port_self (freed ∷ rest) h p missing e =
      find_port-snoc_self n c k freed h.allocated_ports missing ∙ ground arith
  request_new_port_self [] h p missing e =
      elim (Bool-cases (ltb h.port_range_high (h.port_range_low + length h.allocated_ports))) [
        | inl full ↦ absurd (ground arith)
        | inr room ↦ rw room (find_port-snoc_self n c k _ h.allocated_ports missing ∙ ground arith)
      ]

  -- A port that RequestPort returns is the port that HasPort finds afterwards.
  pub has_port-request_port_self :
      (h : Hypervisor) (p : ℕ)
      → (request_port h n c k).1 ≡ ok p
      → has_port (request_port h n c k).0 n c k ≡ (true, p)
  unfolding request_port
  has_port-request_port_self h p e = elim (Bool-cases (has_port h n c k).0) [
    | inl found ↦ rw found (ground (arith, found, rw found at e))
    | inr missing ↦ rw missing (request_new_port_self h.freed_ports h p missing (rw missing at e))
  ]

  request_port-of_has_port :
      (h : Hypervisor) (p : ℕ) → has_port h n c k ≡ (true, p) → request_port h n c k ≡ (h, ok p)
  unfolding request_port
  request_port-of_has_port h p e = rw e

  -- Where RequestPort returned a port, a second request of the same owner returns the same port
  -- and changes nothing.
  pub request_port_twice :
      (h : Hypervisor) (p : ℕ)
      → (request_port h n c k).1 ≡ ok p
      → request_port (request_port h n c k).0 n c k ≡ ((request_port h n c k).0, ok p)
  request_port_twice h p e =
      request_port-of_has_port (request_port h n c k).0 p (has_port-request_port_self h p e)

module _ (n c k n' c' k' : String) (other : OtherOwner n c k n' c' k') (h : Hypervisor) where
  -- FreePort for one owner changes nothing that HasPort says of a different owner.
  pub has_port-free_port_other : has_port (free_port h n c k).0 n' c' k' ≡ has_port h n' c' k'
  unfolding has_port
  has_port-free_port_other =
      rw (allocated-free_port n c k h) (find_port-kept_other n c k n' c' k' h.allocated_ports other)

  request_new_port_other :
      (freed : List ℕ) → has_port (request_new_port freed h n c k).0 n' c' k' ≡ has_port h n' c' k'
  unfolding has_port
  request_new_port_other (freed ∷ rest) =
      find_port-snoc_other n c k n' c' k' freed h.allocated_ports other
  request_new_port_other [] =
      elim (Bool-cases (ltb h.port_range_high (h.port_range_low + length h.allocated_ports))) [
        | inl full ↦ rw full
        | inr room ↦ rw room (find_port-snoc_other n c k n' c' k' _ h.allocated_ports other)
      ]

  -- RequestPort for one owner changes nothing that HasPort says of another.
  pub has_port-request_port_other : has_port (request_port h n c k).0 n' c' k' ≡ has_port h n' c' k'
  unfolding request_port
  has_port-request_port_other = elim (Bool-cases (has_port h n c k).0) [
    | inl found ↦ rw found
    | inr missing ↦ rw missing (request_new_port_other h.freed_ports)
  ]

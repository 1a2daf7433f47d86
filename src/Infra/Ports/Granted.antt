-- ===== src/Infra/Ports/Granted.antt =====
-- What a request for a port on a hypervisor (internal/pkg/infra/hypervisor.go) grants.
use oneinfra.Base.{
  ℕ, ◌+◌, ◌≤◌, String, ◌≡◌, refl, inl, inr, true, List, [], ◌∷◌, arith, ltb, Bool-cases, length,
}
use oneinfra.Base.Errors.{ok}
use oneinfra.Infra.Hypervisor.{Hypervisor}
use oneinfra.Infra.Ports.{request_new_port, request_port, has_port}
use oneinfra.Infra.Ports.Invariant.{WellFormed}
use oneinfra.Infra.Ports.Preservation.{request_port-WellFormed}
use oneinfra.Infra.Ports.Lookup.{
  OtherOwner, has_port-request_port_self, has_port-request_port_other,
}
use oneinfra.Infra.Ports.Exclusive.{has_port-exclusive, has_port_in_range}

-- Two hypervisors with the same range of ports.
abbrev SameRange : Hypervisor → Hypervisor → Type 0
SameRange h h' = (h'.port_range_low ≡ h.port_range_low) × (h'.port_range_high ≡ h.port_range_high)

module _ (h : Hypervisor) (n c k : String) where
  request_new_port-SameRange : (freed : List ℕ) → SameRange h (request_new_port freed h n c k).0
  request_new_port-SameRange (f ∷ rest) = (refl, refl)
  request_new_port-SameRange [] =
      elim (Bool-cases (ltb h.port_range_high (h.port_range_low + length h.allocated_ports))) [
        | inl full ↦ rw full (refl, refl)
        | inr room ↦ rw room (refl, refl)
      ]

  request_port-SameRange : SameRange h (request_port h n c k).0
  unfolding request_port
  request_port-SameRange = elim (Bool-cases (has_port h n c k).0) [
    | inl found ↦ rw found (refl, refl)
    | inr missing ↦ rw missing (request_new_port-SameRange h.freed_ports)
  ]

  -- If RequestPort returns a port on a well-formed hypervisor, then the port lies in the range of
  -- the hypervisor, HasPort finds it for this owner afterwards and for no other owner, and what
  -- HasPort says of every other owner is what it said before.
  pub request_port_grants :
      (p : ℕ)
      → WellFormed h
      → (request_port h n c k).1 ≡ ok p
      → let h' = (request_port h n c k).0 in
        ((h.port_range_low ≤ p) × (p ≤ h.port_range_high))
        × (has_port h' n c k ≡ (true, p))
        × ((n' c' k' : String) → has_port h' n' c' k' ≡ (true, p) → (n ≡ n') × (c ≡ c') × (k ≡ k'))
        × ((n' c' k' : String)
            → OtherOwner n c k n' c' k'
            → has_port h' n' c' k' ≡ has_port h n' c' k')
  request_port_grants p w e =
      let h' = (request_port h n c k).0 in
      let w' = request_port-WellFormed h n c k w in
      let mine = has_port-request_port_self n c k h p e in
      let (low, high) = has_port_in_range h' n c k p w' mine in
      (
        (
          omega (arith, request_port-SameRange.0, low),
          omega (arith, request_port-SameRange.1, high),
        ),
        mine,
        (λ n' c' k' theirs. has_port-exclusive n c k n' c' k' p h' w' mine theirs),
        λ n' c' k' other. has_port-request_port_other n c k n' c' k' other h,
      )

-- ===== src/Infra/Ports/Invariant.antt =====
-- What RequestPort and FreePort keep: no two allocations have one owner, and the ports in use or
-- freed are together the first ports of the range, each once.
use oneinfra.Base.{
  ℕ, suc, ◌+◌, ◌≤◌, String, ◌≡◌, refl, ap, inl, inr, false, not, none, some, [], ◌∷◌, ◌++◌, arith,
  eq_iff, Bool-cases, length, All-keep, All-append, range_from,
}
use oneinfra.Infra.Hypervisor.{HypervisorPortAllocation, HypervisorPortAllocationList, Hypervisor}
use oneinfra.Infra.Ports.{owned_by, find_port}
use oneinfra.Infra.Ports.Owners.{
  same_owner, DistinctOwners, ports, kept, last_owned, NotOwned, NotOwned-of_same, kept_of_NotOwned,
  last_owned_of_NotOwned,
}
use mathlib.Core.List.{Perm}
use mathlib.Core.List.Perm

pub record WellFormed (h : Hypervisor) : Type 0 where
  pub distinct : DistinctOwners h.allocated_ports
  pub contiguous :
      Perm
        (ports h.allocated_ports ++ h.freed_ports)
        (range_from h.port_range_low (length h.allocated_ports + length h.freed_ports))
  pub fits :
      h.port_range_low + (length h.allocated_ports + length h.freed_ports) ≤ suc h.port_range_high

-- Where HasPort finds nothing, no allocation has that owner.
pub NotOwned-of_find :
    (n c k : String) (l : HypervisorPortAllocationList)
    → (find_port n c k l).0 ≡ false
    → NotOwned n c k l
unfolding find_port
NotOwned-of_find n c k [] h = tt
NotOwned-of_find n c k (a ∷ rest) h = ground (arith, NotOwned-of_find n c k rest)

same_owner-false_of_NotOwned :
    (n c k : String) (p : ℕ) (a : HypervisorPortAllocation)
    → owned_by n c k a ≡ false
    → same_owner a (record { cluster_namespace = n; cluster = c; component = k; port = p }) ≡ false
same_owner-false_of_NotOwned n c k p a h = ground (
  arith,
  eq_iff a.cluster_namespace n,
  eq_iff a.cluster c,
  eq_iff a.component k,
  eq_iff n a.cluster_namespace,
  eq_iff c a.cluster,
  eq_iff k a.component,
)

pub DistinctOwners-snoc :
    (n c k : String) (p : ℕ) (l : HypervisorPortAllocationList)
    → NotOwned n c k l
    → DistinctOwners l
    → DistinctOwners
        (l ++ record { cluster_namespace = n; cluster = c; component = k; port = p } ∷ [])
DistinctOwners-snoc n c k p [] h d = (tt, tt)
DistinctOwners-snoc n c k p (a ∷ rest) h d = (
  All-append _ rest _ d.0 (same_owner-false_of_NotOwned n c k p a h.0, tt),
  DistinctOwners-snoc n c k p rest h.1 d.1,
)

pub DistinctOwners-kept :
    (n c k : String) (l : HypervisorPortAllocationList)
    → DistinctOwners l
    → DistinctOwners (kept n c k l)
DistinctOwners-kept n c k [] d = tt
DistinctOwners-kept n c k (a ∷ rest) d = ground (
  arith,
  DistinctOwners-kept n c k rest d.1,
  All-keep (λ (b : HypervisorPortAllocation). same_owner a b ≡ false)
      (λ (b : HypervisorPortAllocation). not (owned_by n c k b)) rest d.0,
)

abbrev pub Dropped :
    String → String → String → HypervisorPortAllocationList → HypervisorPortAllocation → Type 0
Dropped n c k l x =
    Perm (ports l) (x.port ∷ ports (kept n c k l)) × (length l ≡ suc (length (kept n c k l)))

-- Among distinct owners the loop drops one allocation, and it is the one that it remembers.
pub kept-Dropped :
    (n c k : String) (l : HypervisorPortAllocationList) (x : HypervisorPortAllocation)
    → DistinctOwners l
    → last_owned n c k l none ≡ some x
    → Dropped n c k l x
kept-Dropped n c k [] x d h = cc
kept-Dropped n c k (a ∷ rest) x d h = elim (Bool-cases (owned_by n c k a)) [
  | inl e ↦
      let none_left = NotOwned-of_same n c k a rest e d.0 in
      let hit = rw (e, last_owned_of_NotOwned n c k rest (some a) none_left) at h in
      rw (e, kept_of_NotOwned n c k rest none_left) (Perm.cons' (ground arith) Perm.rfl, refl)
  | inr e ↦
      let (p, len) = kept-Dropped n c k rest x d.1 (rw e at h) in
      rw e (Perm.trans (Perm.cons a.port p) (Perm.swap x.port a.port _), ap suc len)
]

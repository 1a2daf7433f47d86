-- ===== src/Infra/Ports/Owners.antt =====
-- Allocation lists in which no two entries have one owner, and what the loop of FreePort does there.
use oneinfra.Base.{
  ℕ, String, ◌≡◌, refl, ◌∙◌, inl, inr, Bool, true, false, not, Option, some, List, [], ◌∷◌, ◌++◌,
  map, append_assoc, append-nil, arith, eq_iff, if◌then◌else◌, Bool-cases, keep, All,
}
use oneinfra.Infra.Hypervisor.{HypervisorPortAllocation, HypervisorPortAllocationList}
use oneinfra.Infra.Ports.{owned_by, free_loop}

abbrev pub same_owner : HypervisorPortAllocation → HypervisorPortAllocation → Bool
same_owner a = owned_by a.cluster_namespace a.cluster a.component

abbrev pub DistinctOwners : HypervisorPortAllocationList → Type 0
DistinctOwners [] = Unit
DistinctOwners (a ∷ rest) = All (λ b. same_owner a b ≡ false) rest × DistinctOwners rest

abbrev pub ports : HypervisorPortAllocationList → List ℕ
ports = map (λ a. a.port)

module _ (namespace cluster component : String) where
  abbrev pub kept : HypervisorPortAllocationList → HypervisorPortAllocationList
  kept = keep (λ a. not (owned_by namespace cluster component a))

  abbrev pub last_owned :
      HypervisorPortAllocationList
      → Option HypervisorPortAllocation
      → Option HypervisorPortAllocation
  last_owned [] o = o
  last_owned (a ∷ rest) o =
      last_owned rest (if owned_by namespace cluster component a then some a else o)

  abbrev pub NotOwned : HypervisorPortAllocationList → Type 0
  NotOwned = All (λ a. owned_by namespace cluster component a ≡ false)

-- An allocation that has the same owner as an owned one is owned.
owned_by-same :
    (n c k : String) (a b : HypervisorPortAllocation)
    → owned_by n c k a ≡ true
    → same_owner a b ≡ false
    → owned_by n c k b ≡ false
owned_by-same n c k a b o s = ground (
  arith,
  eq_iff a.cluster_namespace n,
  eq_iff a.cluster c,
  eq_iff a.component k,
  eq_iff b.cluster_namespace n,
  eq_iff b.cluster c,
  eq_iff b.component k,
  eq_iff b.cluster_namespace a.cluster_namespace,
  eq_iff b.cluster a.cluster,
  eq_iff b.component a.component,
)

pub NotOwned-of_same :
    (n c k : String) (a : HypervisorPortAllocation) (rest : HypervisorPortAllocationList)
    → owned_by n c k a ≡ true
    → All (λ b. same_owner a b ≡ false) rest
    → NotOwned n c k rest
NotOwned-of_same n c k a [] o h = tt
NotOwned-of_same n c k a (b ∷ rest) o h =
    (owned_by-same n c k a b o h.0, NotOwned-of_same n c k a rest o h.1)

module _ (n c k : String) where
  pub kept_of_NotOwned : (l : HypervisorPortAllocationList) → NotOwned n c k l → kept n c k l ≡ l
  kept_of_NotOwned [] h = refl
  kept_of_NotOwned (a ∷ rest) h = ground (arith, kept_of_NotOwned rest)

  pub last_owned_of_NotOwned :
      (l : HypervisorPortAllocationList) (o : Option HypervisorPortAllocation)
      → NotOwned n c k l
      → last_owned n c k l o ≡ o
  last_owned_of_NotOwned [] o h = refl
  last_owned_of_NotOwned (a ∷ rest) o h = rw h.0 (last_owned_of_NotOwned rest o h.1)

  -- The accumulators of the loop hold what is kept, in order, and the last owned allocation.
  pub free_loop_lem :
      (l done : HypervisorPortAllocationList) (o : Option HypervisorPortAllocation)
      → free_loop n c k l done o ≡ (done ++ kept n c k l, last_owned n c k l o)
  unfolding free_loop
  free_loop_lem [] done o = rw append-nil
  free_loop_lem (a ∷ rest) done o = elim (Bool-cases (owned_by n c k a)) [
    | inl e ↦ rw e (free_loop_lem rest done (some a))
    | inr e ↦ rw e (free_loop_lem rest (done ++ a ∷ []) o ∙ simp append_assoc)
  ]

-- ===== src/Infra/Pods/Waiting/Exits.antt =====
-- What a successful WaitForPod and RunAndWaitForPod of internal/pkg/infra/hypervisor.go show.
use oneinfra.Base.{
  ℕ, zero, suc, String, ◌≡◌, refl, ap, ap₂, subst, ◌⊎◌, inl, inr, true, Option, none, some, List,
  arith, Bool-cases,
}
use oneinfra.Base.Errors.{some_inj, err, ok, Result}
use oneinfra.Infra.Pods.{Pod, PodCodecs, cri_runtime, CriContainer, ContainerRuntime, Host}
use oneinfra.Infra.Pods.Deleting.{delete_pod_with_id-Gone, SandboxLaws, delete_pod_with_id}
use oneinfra.Infra.Pods.Ensuring.{ensure_pod}
use oneinfra.Infra.Pods.Waiting.{
  all_containers_exited, slept, poll, wait_connected, delete_waited, wait_ensured, outcome,
  next_round, run_and_wait_for_pod, wait_loop, Awaited, Outcome, wait_for_pod,
}

outcome-ok :
    (r : Result (List CriContainer))
    → outcome r ≡ some (ok tt)
    → (l : List CriContainer) × (r ≡ ok l) × (all_containers_exited l ≡ true)
outcome-ok (err e) h = absurd (ground (arith, h))
outcome-ok (ok l) h = elim (Bool-cases (all_containers_exited l)) [
  | inl e ↦ (l, refl, e)
  | inr e ↦ absurd (ground (arith, h, e))
]

next_round-ok :
    {W : Type 0} (o : Option Outcome) (host h : Host W) (rest : Awaited W)
    → next_round o host rest ≡ some (ok tt, h)
    → ((o ≡ some (ok tt)) × (host ≡ h)) ⊎ (rest ≡ some (ok tt, h))
next_round-ok (some x) host h rest e = inl (ground (arith, e), ground (arith, e))
next_round-ok none host h rest e = inr e

-- Where a wait succeeds, it ends with a list of containers that have all exited.
module _ {W : Type 0} (cri : ContainerRuntime W) where
  abbrev pub ExitedAt : String → Host W → Type 0
  ExitedAt id h =
      (start : Host W) × (l : List CriContainer) × (poll cri id start ≡ (ok l, h))
      × (all_containers_exited l ≡ true)

  wait_loop-ExitedAt :
      (rounds : ℕ) (id : String) (host h : Host W)
      → wait_loop cri rounds id host ≡ some (ok tt, h)
      → ExitedAt id h
  unfolding wait_loop
  wait_loop-ExitedAt zero id host h e = absurd (ground (arith, e))
  wait_loop-ExitedAt (suc rounds) id host h e =
      elim (next_round-ok (outcome (poll cri id host).0) (poll cri id host).1 h
        (wait_loop cri rounds id (slept cri (poll cri id host).1)) e) [
          | inl now ↦
              (let (l, seen, exited) = outcome-ok (poll cri id host).0 now.0 in
                (host, l, ap₂ (λ a b. (a, b)) seen now.1, exited))
          | inr later ↦ wait_loop-ExitedAt rounds id (slept cri (poll cri id host).1) h later
        ]

  wait_connected-ExitedAt :
      (rounds : ℕ) (id : String) (r : Outcome × Host W) (h : Host W)
      → wait_connected cri rounds id r ≡ some (ok tt, h)
      → ExitedAt id h
  wait_connected-ExitedAt rounds id (err e, host) h eq = absurd (ground (arith, eq))
  wait_connected-ExitedAt rounds id (ok u, host) h eq = wait_loop-ExitedAt rounds id host h eq

  wait_for_pod-ExitedAt :
      (rounds : ℕ) (id : String) (host h : Host W)
      → wait_for_pod cri rounds id host ≡ some (ok tt, h)
      → ExitedAt id h
  unfolding wait_for_pod
  wait_for_pod-ExitedAt rounds id host = wait_connected-ExitedAt rounds id (cri_runtime cri host)

  delete_waited-ok :
      (id : String) (a : Awaited W) (h : Host W)
      → delete_waited cri id a ≡ some (ok tt, h)
      → (k : Host W) × (a ≡ some (ok tt, k)) × (delete_pod_with_id cri id k ≡ (ok tt, h))
  delete_waited-ok id none h e = absurd (ground (arith, e))
  delete_waited-ok id (some (err x, k)) h e = absurd (ground (arith, e))
  delete_waited-ok id (some (ok u, k)) h e = (k, refl, some_inj e)

  -- The pod `id` had exited when it was deleted.
  abbrev pub DeletedAfterExit : String → Host W → Type 0
  DeletedAfterExit id h = (k : Host W) × ExitedAt id k × (delete_pod_with_id cri id k ≡ (ok tt, h))

  wait_ensured-DeletedAfterExit :
      (rounds : ℕ) (r : Result String × Host W) (h : Host W)
      → wait_ensured cri rounds r ≡ some (ok tt, h)
      → (id : String) × (r.0 ≡ ok id) × DeletedAfterExit id h
  wait_ensured-DeletedAfterExit rounds (err e, host) h eq = absurd (ground (arith, eq))
  wait_ensured-DeletedAfterExit rounds (ok id, host) h eq =
      let (k, waited, deleted) = delete_waited-ok id (wait_for_pod cri rounds id host) h eq in
      (id, refl, (k, wait_for_pod-ExitedAt rounds id host k waited, deleted))

  -- If RunAndWaitForPod succeeds within some number of rounds, then EnsurePod has succeeded with the
  -- id of a sandbox, all containers of this sandbox had exited when they were last listed, and the
  -- sandbox was then deleted without an error; where a removal that succeeds makes a sandbox gone,
  -- it is gone in the end.
  pub run_and_wait_for_pod-Gone :
      (laws : SandboxLaws cri) (codecs : PodCodecs)
      → (cluster_namespace cluster_name component_name : String) (rounds : ℕ) (pod : Pod)
      → (host end : Host W)
      → run_and_wait_for_pod cri codecs cluster_namespace cluster_name component_name rounds pod
          host
        ≡ some (ok tt, end)
      → (id : String) × ((ensure_pod cri codecs cluster_namespace cluster_name component_name pod
            host).0
          ≡ ok id)
        × DeletedAfterExit id end
        × laws.Gone id end.world
  unfolding run_and_wait_for_pod
  run_and_wait_for_pod-Gone laws codecs n c k rounds pod host end e =
      let (id, ensured, (at, exited, deleted)) =
        wait_ensured-DeletedAfterExit rounds (ensure_pod cri codecs n c k pod host) end e in
      (
        id,
        ensured,
        (at, exited, deleted),
        subst (λ z. laws.Gone id z.1.world) deleted
            (delete_pod_with_id-Gone cri laws id at tt tt (ap (λ z. z.0) deleted)),
      )

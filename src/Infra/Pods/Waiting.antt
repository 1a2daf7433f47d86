-- ===== src/Infra/Pods/Waiting.antt =====
-- WaitForPod and RunAndWaitForPod of internal/pkg/infra/hypervisor.go. The loop without a bound is
-- cut off after a number of rounds, and `none` is for a wait that is not over by then.
pub mod Exits
use oneinfra.Base.{
  ℕ, zero, suc, ◌<◌, String, ◌≡◌, refl, ap, ◌∙◌, inl, inr, Bool, true, false, Option, none, some,
  List, [], ◌∷◌, arith, if◌then◌else◌, Bool-cases,
}
use oneinfra.Base.Errors.{ok, err, Result}
use oneinfra.Infra.Pods.{
  Pod, cri_runtime, CriContainer, PodCodecs, ContainerRuntime, Host, call, ContainerState,
  container_exited,
}
use oneinfra.Infra.Pods.Deleting.{delete_pod_with_id-Gone, SandboxLaws, delete_pod_with_id}
use oneinfra.Infra.Pods.Ensuring.{ensure_pod}

-- The result of a function that returns only an error.
abbrev pub Outcome : Type 0
Outcome = Result Unit

-- What a call returns and leaves behind, once it is over.
abbrev pub Awaited : Type 0 → Type 0
Awaited W = Option (Outcome × Host W)

abbrev pub is_exited : ContainerState → Bool
is_exited container_exited = true
is_exited _ = false

abbrev pub all_containers_exited : List CriContainer → Bool
all_containers_exited [] = true
all_containers_exited (container ∷ containers) =
    if is_exited container.state then all_containers_exited containers else false

-- What the loop returns with after a list of the containers, or `none` if it goes on.
abbrev pub outcome : Result (List CriContainer) → Option Outcome
outcome (err e) = some (err e)
outcome (ok containers) = if all_containers_exited containers then some (ok tt) else none

abbrev pub next_round : {W : Type 0} → Option Outcome → Host W → Awaited W → Awaited W
next_round (some result) host rest = some (result, host)
next_round none host rest = rest

module _ {W : Type 0} (cri : ContainerRuntime W) where
  abbrev pub slept : Host W → Host W
  slept host = record host { world = cri.sleep host.world }

  abbrev pub poll : String → Host W → Result (List CriContainer) × Host W
  poll pod_sandbox_id = call (cri.list_containers pod_sandbox_id)

  unfoldable pub wait_loop : ℕ → String → Host W → Awaited W
  wait_loop zero pod_sandbox_id host = none
  wait_loop (suc rounds) pod_sandbox_id host =
      let rest = wait_loop rounds pod_sandbox_id (slept (poll pod_sandbox_id host).1) in
      next_round (outcome (poll pod_sandbox_id host).0) (poll pod_sandbox_id host).1 rest

  abbrev pub wait_connected : ℕ → String → Outcome × Host W → Awaited W
  wait_connected rounds pod_sandbox_id (err e, host) = some (err e, host)
  wait_connected rounds pod_sandbox_id (ok client, host) = wait_loop rounds pod_sandbox_id host

  unfoldable pub wait_for_pod : ℕ → String → Host W → Awaited W
  unfolding cri_runtime wait_loop
  wait_for_pod rounds pod_sandbox_id host =
      wait_connected rounds pod_sandbox_id (cri_runtime cri host)

  abbrev pub delete_waited : String → Awaited W → Awaited W
  delete_waited pod_sandbox_id none = none
  delete_waited pod_sandbox_id (some (err e, host)) = some (err e, host)
  delete_waited pod_sandbox_id (some (ok done, host)) =
      some (delete_pod_with_id cri pod_sandbox_id host)

  abbrev pub wait_ensured : ℕ → Result String × Host W → Awaited W
  wait_ensured rounds (err e, host) = some (err e, host)
  wait_ensured rounds (ok pod_sandbox_id, host) =
      delete_waited pod_sandbox_id (wait_for_pod rounds pod_sandbox_id host)

  module _ (codecs : PodCodecs) (cluster_namespace cluster_name component_name : String) where
    unfoldable pub run_and_wait_for_pod : ℕ → Pod → Host W → Awaited W
    unfolding ensure_pod wait_for_pod
    run_and_wait_for_pod rounds pod host =
        wait_ensured rounds
          (ensure_pod cri codecs cluster_namespace cluster_name component_name pod host)

  -- The state in which the loop lists the containers for the n-th time.
  abbrev pub before_round : String → ℕ → Host W → Host W
  before_round pod_sandbox_id zero host = host
  before_round pod_sandbox_id (suc n) host =
      before_round pod_sandbox_id n (slept (poll pod_sandbox_id host).1)

  -- The containers cannot be listed, or all have exited.
  abbrev pub is_over : Result (List CriContainer) → Bool
  is_over (err e) = true
  is_over (ok containers) = all_containers_exited containers

  goes_on : (r : Result (List CriContainer)) → is_over r ≡ false → outcome r ≡ none
  goes_on (err e) h = ground arith
  goes_on (ok l) h = ground (arith, h)

  ends : (r : Result (List CriContainer)) → is_over r ≡ true → (x : Outcome) × (outcome r ≡ some x)
  ends (err e) h = (err e, refl)
  ends (ok l) h = (ok tt, ground (arith, h))

  -- A loop that is over in its first round.
  over_now :
      (id : String) (host : Host W) (x : Outcome) (n : ℕ)
      → outcome (poll id host).0 ≡ some x
      → (rounds : ℕ) → n < rounds
      → wait_loop rounds id host ≡ some (x, (poll id host).1)
  unfolding wait_loop
  over_now id host x n e zero h = absurd (omega arith)
  over_now id host x n e (suc rounds) h =
      ap (λ z. next_round z (poll id host).1 (wait_loop rounds id (slept (poll id host).1))) e

  -- A loop that goes on after its first round.
  over_later :
      (id : String) (host : Host W) (r : Outcome × Host W) (n : ℕ)
      → outcome (poll id host).0 ≡ none
      → ((rounds : ℕ) → n < rounds → wait_loop rounds id (slept (poll id host).1) ≡ some r)
      → (rounds : ℕ) → suc n < rounds
      → wait_loop rounds id host ≡ some r
  unfolding wait_loop
  over_later id host r n e f zero h = absurd (omega arith)
  over_later id host r n e f (suc rounds) h =
      ap (λ z. next_round z (poll id host).1 (wait_loop rounds id (slept (poll id host).1))) e
      ∙ f rounds (omega arith)

  wait_loop-over :
      (id : String) (n : ℕ) (host : Host W)
      → is_over (poll id (before_round id n host)).0 ≡ true
      → (r : Outcome × Host W) × ((rounds : ℕ) → n < rounds → wait_loop rounds id host ≡ some r)
  wait_loop-over id zero host h =
      let (x, e) = ends (poll id host).0 h in ((x, (poll id host).1), over_now id host x zero e)
  wait_loop-over id (suc n) host h = elim (Bool-cases (is_over (poll id host).0)) [
    | inl now ↦
        (let (x, e) = ends (poll id host).0 now in
          ((x, (poll id host).1), over_now id host x (suc n) e))
    | inr later ↦
        (let (r, f) = wait_loop-over id n (slept (poll id host).1) h in
          (r, over_later id host r n (goes_on (poll id host).0 later) f))
  ]

  wait_connected-over :
      (id : String) (n : ℕ) (r : Outcome × Host W)
      → is_over (poll id (before_round id n r.1)).0 ≡ true
      → (res : Outcome × Host W) × ((rounds : ℕ)
          → n < rounds
          → wait_connected rounds id r ≡ some res)
  wait_connected-over id n (err e, host) h = ((err e, host), λ rounds l. refl)
  wait_connected-over id n (ok u, host) h = wait_loop-over id n host h

  -- WaitForPod comes to an end: if in the n-th round, counted from 0, the containers of the pod
  -- cannot be listed or have all exited, then it returns within n + 1 rounds, and any larger bound
  -- on the rounds gives the same result and the same state.
  pub wait_for_pod-is_over :
      (pod_sandbox_id : String) (n : ℕ) (host : Host W)
      → is_over (poll pod_sandbox_id (before_round pod_sandbox_id n (cri_runtime cri host).1)).0
        ≡ true
      → (result : Outcome × Host W) × ((rounds : ℕ)
          → n < rounds
          → wait_for_pod rounds pod_sandbox_id host ≡ some result)
  unfolding wait_for_pod
  wait_for_pod-is_over pod_sandbox_id n host =
      wait_connected-over pod_sandbox_id n (cri_runtime cri host)

-- ===== src/Infra/Pods/Ensuring/Creation.antt =====
-- What EnsurePod of internal/pkg/infra/hypervisor.go leaves behind where no sandbox of the pod was
-- ready: a sandbox in which every container of the pod was created and started.
use oneinfra.Infra.Pods.Calls.{call-ensures, call-Keeps}
use oneinfra.Base.{
  String, ◌≡◌, refl, sym, ap, ◌∙◌, subst, List, [], ◌∷◌, ◌++◌, append_assoc, append-nil, All,
  All-mono,
}
use oneinfra.Base.Errors.{ok, Result, ok_inj}
use oneinfra.Base.Actions.{lift, >>=-Ensures, >>=-Keeps, Ensures, Keeps}
use oneinfra.Dict
use oneinfra.Dict.{Dict}
use oneinfra.Infra.Pods.{
  pod_sandbox_config, cri_runtime, PodCodecs, Pod, Container, CreateContainerRequest,
  PodSandboxConfig, ContainerRuntime, Host, call,
}
use oneinfra.Infra.Pods.Ensuring.{
  delete_pod, run_if_none, replace_pod, PodStatus, is_pod_running, no_pod, ensure_pod,
  ensure_pod_from, create_request, ensure_containers, create_missing, create_loop, start_loop,
}

-- What the code relies on: `Made s n i` is for a container named `n` that was made in the sandbox
-- `s` with id `i`, and `Runs s n` for one that was started; creating and starting others changes
-- neither.
pub record ContainerLaws {W : Type 0} (cri : ContainerRuntime W) : Type 1 where
  pub Made : String → String → String → W → Type 0
  pub Runs : String → String → W → Type 0
  pub created :
      (request : CreateContainerRequest)
      → Ensures
          (λ w. Unit)
          (cri.create_container request)
          (λ i. Made request.pod_sandbox_id request.name i)
  pub create_keeps :
      (request : CreateContainerRequest) (s n i : String)
      → Keeps (Made s n i) (cri.create_container request)
  pub started : (s n i : String) → Ensures (Made s n i) (cri.start_container i) (λ u. Runs s n)
  pub start_keeps_made : (s n i j : String) → Keeps (Made s n i) (cri.start_container j)
  pub start_keeps_runs : (s n j : String) → Keeps (Runs s n) (cri.start_container j)

module _ {W : Type 0} (cri : ContainerRuntime W) (laws : ContainerLaws cri) where
  module _ (id : String) where
    -- Each container was made, with the id in its place.
    abbrev AllMade : List Container → List String → Host W → Type 0
    AllMade [] [] host = Unit
    AllMade [] (i ∷ ids) host = ⊥
    AllMade (c ∷ l) [] host = ⊥
    AllMade (c ∷ l) (i ∷ ids) host = laws.Made id c.name i host.world × AllMade l ids host

    abbrev pub AllRun : List Container → Host W → Type 0
    AllRun l host = All (λ (c : Container). laws.Runs id c.name host.world) l

    AllMade-step :
        (h host : Host W)
        → ((n i : String) → laws.Made id n i h.world → laws.Made id n i host.world)
        → (l : List Container) (ids : List String) → AllMade l ids h
        → AllMade l ids host
    AllMade-step h host f [] [] p = tt
    AllMade-step h host f [] (i ∷ ids) p = p
    AllMade-step h host f (c ∷ l) [] p = p
    AllMade-step h host f (c ∷ l) (i ∷ ids) p = (f c.name i p.0, AllMade-step h host f l ids p.1)

    AllMade-snoc :
        (host : Host W) (c : Container) (i : String)
        → laws.Made id c.name i host.world
        → (l : List Container) (ids : List String) → AllMade l ids host
        → AllMade (l ++ c ∷ []) (ids ++ i ∷ []) host
    AllMade-snoc host c i m [] [] p = (m, tt)
    AllMade-snoc host c i m [] (j ∷ ids) p = absurd p
    AllMade-snoc host c i m (d ∷ l) [] p = absurd p
    AllMade-snoc host c i m (d ∷ l) (j ∷ ids) p = (p.0, AllMade-snoc host c i m l ids p.1)

    start-Keeps :
        (l : List Container) (j : String) → Keeps (AllRun l) (call (cri.start_container j))
    start-Keeps l j host p =
        All-mono _ _ l
          (λ (c : Container).
            call-Keeps (laws.Runs id c.name) (cri.start_container j)
              (laws.start_keeps_runs id c.name j) host)
          p

    start_loop-Keeps :
        (n : String) (ids : List String)
        → Keeps (λ host. laws.Runs id n host.world) (start_loop cri ids)
    unfolding start_loop
    start_loop-Keeps n [] = λ host p. p
    start_loop-Keeps n (j ∷ ids) =
        >>=-Keeps (λ host. laws.Runs id n host.world) (call (cri.start_container j)) _
          (call-Keeps (laws.Runs id n) (cri.start_container j) (laws.start_keeps_runs id n j))
          λ u. start_loop-Keeps n ids

    start_loop-AllRun :
        (l : List Container) (ids : List String)
        → Ensures (AllMade l ids) (start_loop cri ids) (λ u. AllRun l)
    unfolding start_loop
    start_loop-AllRun [] [] = λ host p u e. tt
    start_loop-AllRun [] (i ∷ ids) = λ host p. absurd p
    start_loop-AllRun (c ∷ l) [] = λ host p. absurd p
    start_loop-AllRun (c ∷ l) (i ∷ ids) =
        >>=-Ensures (AllMade (c ∷ l) (i ∷ ids))
          (λ u host. laws.Runs id c.name host.world × AllMade l ids host) (λ u. AllRun (c ∷ l))
          (call (cri.start_container i)) _
          (λ host p u e. (
            call-ensures (laws.Made id c.name i) (λ u. laws.Runs id c.name) (cri.start_container i)
                (laws.started id c.name i) host p.0 u e,
            AllMade-step host (call (cri.start_container i) host).1
                (λ n j.
                  call-Keeps (laws.Made id n j) (cri.start_container i)
                    (laws.start_keeps_made id n j i) host)
                l ids p.1,
          ))
          λ u host p v e.
            (start_loop-Keeps c.name ids host p.0, start_loop-AllRun l ids host p.1 v e)

    module _ (config : PodSandboxConfig) (pod : Pod) where
      create_missing-Made :
          (done : List Container) (ids : List String) (c : Container)
          → Ensures
              (AllMade done ids)
              (create_missing cri id config pod [] [] c)
              (λ i. AllMade (done ++ c ∷ []) (ids ++ i ∷ []))
      unfolding Dict.lookup
      create_missing-Made done ids c host p i e =
          let op = cri.create_container (create_request id config pod c) in
          AllMade-snoc (call op host).1 c i
            (call-ensures (λ w. Unit) (λ j. laws.Made id c.name j) op
              (laws.created (create_request id config pod c)) host tt i e)
            done ids
            (AllMade-step host (call op host).1
              (λ n j.
                call-Keeps (laws.Made id n j) op
                  (laws.create_keeps (create_request id config pod c) id n j) host)
              done ids p)

      create_loop-AllMade :
          (done l : List Container) (ids : List String)
          → Ensures
              (AllMade done ids)
              (create_loop cri id config pod [] [] ids l)
              (λ r. AllMade (done ++ l) r)
      unfolding create_loop Dict.has Dict.lookup
      create_loop-AllMade done [] ids = λ host p r e.
          subst (λ z. AllMade z r host) (sym (append-nil done))
            (subst (λ z. AllMade done z host) (ok_inj e) p)
      create_loop-AllMade done (c ∷ l) ids =
          >>=-Ensures (AllMade done ids) (λ i. AllMade (done ++ c ∷ []) (ids ++ i ∷ []))
            (λ r. AllMade (done ++ c ∷ l) r) (create_missing cri id config pod [] [] c) _
            (create_missing-Made done ids c)
            λ i host p r e.
              subst
                (λ z. AllMade z r (create_loop cri id config pod [] [] (ids ++ i ∷ []) l host).1)
                (append_assoc done (c ∷ []) l)
                (create_loop-AllMade (done ++ c ∷ []) l (ids ++ i ∷ []) host p r e)

      abbrev Always : Host W → Type 0
      Always host = Unit

      ensure_containers-AllRun :
          Ensures Always (ensure_containers cri id config pod [] []) (λ u. AllRun pod.containers)
      unfolding ensure_containers
      ensure_containers-AllRun =
          >>=-Ensures Always (λ r. AllMade pod.containers r) (λ u. AllRun pod.containers)
            (create_loop cri id config pod [] [] [] pod.containers) _
            (λ host p. create_loop-AllMade [] pod.containers [] host tt)
            (start_loop-AllRun pod.containers)

  module _ (codecs : PodCodecs) (cluster_namespace cluster_name component_name : String)
      (pod : Pod) where
    abbrev Anything : Host W → Type 0
    Anything host = Unit

    ensure_pod_from-AllRun :
        Ensures Anything
          (ensure_pod_from cri codecs cluster_namespace cluster_name component_name no_pod pod)
          (λ id host. AllRun id pod.containers host)
    unfolding ensure_pod_from
    ensure_pod_from-AllRun =
        let result = λ (id : String) (host : Host W). AllRun id pod.containers host in
        >>=-Ensures Anything (λ u. Anything) result (cri_runtime cri) _ (λ host p u e. tt)
          λ u.
            >>=-Ensures Anything (λ config. Anything) result
              (lift (pod_sandbox_config codecs cluster_namespace cluster_name component_name pod)) _
              (λ host p c e. tt)
              λ config.
                >>=-Ensures Anything (λ id. Anything) result
                  (run_if_none cri codecs cluster_namespace cluster_name component_name "" config) _
                  (λ host p c e. tt)
                  λ id.
                    >>=-Ensures Anything (λ u. AllRun id pod.containers) result
                      (ensure_containers cri id config pod [] []) _
                      (ensure_containers-AllRun id config pod)
                      λ u host p j e. subst (λ z. AllRun z pod.containers host) (ok_inj e) p

    replace_pod-AllRun :
        (st : PodStatus)
        → st ≡ no_pod
        → Ensures Anything
            (replace_pod cri codecs cluster_namespace cluster_name component_name pod st)
            (λ id. AllRun id pod.containers)
    replace_pod-AllRun st s =
        subst
          (λ z.
            Ensures Anything
              (replace_pod cri codecs cluster_namespace cluster_name component_name pod z)
              (λ id. AllRun id pod.containers))
          (sym s)
          λ host p.
            ensure_pod_from-AllRun
              (delete_pod cri cluster_namespace cluster_name component_name pod.name host).1 tt

    abbrev found : Host W → Result PodStatus × Host W
    found = is_pod_running cri codecs cluster_namespace cluster_name component_name pod

    -- If IsPodRunning finds no ready sandbox of the pod, and EnsurePod succeeds with the id of a
    -- sandbox, then each of the pod's containers was created and started in this sandbox, where the
    -- runtime makes what it is asked for and starts what it has made.
    pub ensure_pod-AllRun :
        (host : Host W)
        → (is_pod_running cri codecs cluster_namespace cluster_name component_name pod host).0
          ≡ ok no_pod
        → (id : String)
        → (ensure_pod cri codecs cluster_namespace cluster_name component_name pod host).0 ≡ ok id
        → All
            (λ (c : Container).
              laws.Runs id c.name
                (ensure_pod cri codecs cluster_namespace cluster_name component_name pod
                  host).1.world)
            pod.containers
    unfolding ensure_pod
    ensure_pod-AllRun host seen id =
        >>=-Ensures (λ h. h ≡ host) (λ st h. st ≡ no_pod) (λ i. AllRun i pod.containers) found
          (replace_pod cri codecs cluster_namespace cluster_name component_name pod)
          (λ h same st e. ok_inj (sym e ∙ ap (λ z. (found z).0) same ∙ seen))
          (λ st h s. replace_pod-AllRun st s h tt) host refl id

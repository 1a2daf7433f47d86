-- ===== src/Infra/Pods/Ensuring/Repair.antt =====
-- What EnsurePod of internal/pkg/infra/hypervisor.go does to a pod of which a container is not
-- running: it deletes the sandbox, and goes on with the id of the sandbox that it has deleted.
use oneinfra.Infra.Pods.Calls.{cri_runtime-Keeps, call-ensures, call-Keeps}
use oneinfra.Base.{
  String, ◌≡◌, refl, sym, ap, ◌∙◌, subst, ◌≢◌, Bool, true, false, ◌&&◌, Option, none, some, List,
  [], ◌∷◌, arith, ◌==◌, eq_iff,
}
use oneinfra.Base.Errors.{Result, ok, ok_inj}
use oneinfra.Base.Actions.{>>=-Ensures, choose-Ensures, Keeps, Ensures, lift}
use oneinfra.Dict
use oneinfra.Dict.{Dict}
use oneinfra.Infra.Pods.{
  pod_sandbox_config, cri_runtime, pod_labels, PodCodecs, Pod, Container, CreateContainerRequest,
  PodSandboxConfig, CriContainer, ContainerRuntime, Host,
}
use oneinfra.Infra.Pods.Deleting.{delete_pod-Gone, delete_pod, SandboxLaws}
use oneinfra.Infra.Pods.Ensuring.{
  is_pod_running, ensure_pod, replace_pod, run_if_none, ensure_pod_from, PodStatus,
  ensure_containers, create_request, create_missing, create_loop, remove_not_running,
}

-- Whether every container is among the running ones.
abbrev pub none_missing : Dict CriContainer → List Container → Bool
none_missing running [] = true
none_missing running (container ∷ containers) =
    Dict.has container.name running && none_missing running containers

-- What the code relies on: no container can be created in a sandbox that is gone, and a sandbox that
-- is gone does not come back when a container is removed.
pub record GoneLaws {W : Type 0} (cri : ContainerRuntime W) : Type 1 where
  pub sandboxes : SandboxLaws cri
  pub create_refused :
      (request : CreateContainerRequest)
      → Ensures (sandboxes.Gone request.pod_sandbox_id) (cri.create_container request) (λ i w. ⊥)
  pub remove_keeps :
      (id container_id : String) → Keeps (sandboxes.Gone id) (cri.remove_container container_id)

module _ {W : Type 0} (cri : ContainerRuntime W) (laws : GoneLaws cri) where
  module _ (id : String) where
    abbrev IsGone : Host W → Type 0
    IsGone host = laws.sandboxes.Gone id host.world

    remove_not_running-Gone :
        (o : Option CriContainer) (host : Host W)
        → IsGone host
        → IsGone (remove_not_running cri o host)
    remove_not_running-Gone none host p = p
    remove_not_running-Gone (some c) host p =
        call-Keeps (laws.sandboxes.Gone id) (cri.remove_container c.id) (laws.remove_keeps id c.id)
          host p

    module _ (config : PodSandboxConfig) (pod : Pod) (running not_running : Dict CriContainer) where
      create_missing-refused :
          (c : Container)
          → Ensures IsGone (create_missing cri id config pod running not_running c) (λ i host. ⊥)
      create_missing-refused c host p =
          call-ensures (laws.sandboxes.Gone id) (λ i w. ⊥)
            (cri.create_container (create_request id config pod c))
            (laws.create_refused (create_request id config pod c))
            (remove_not_running cri (Dict.lookup c.name not_running) host)
            (remove_not_running-Gone (Dict.lookup c.name not_running) host p)

      create_loop-none_missing :
          (ids : List String) (l : List Container)
          → Ensures IsGone
              (create_loop cri id config pod running not_running ids l)
              (λ r host. none_missing running l ≡ true)
      unfolding create_loop
      create_loop-none_missing ids [] = λ host p r e. refl
      create_loop-none_missing ids (c ∷ l) =
          choose-Ensures IsGone (λ r host. none_missing running (c ∷ l) ≡ true)
            (Dict.has c.name running) _ _
            (λ h host p r e.
              let rest = create_loop-none_missing ids l host p r e in ground (arith, h, rest))
            λ h.
              >>=-Ensures IsGone (λ i host. ⊥) (λ r host. none_missing running (c ∷ l) ≡ true)
                (create_missing cri id config pod running not_running c) _
                (create_missing-refused c) λ i host p. absurd p

      ensure_containers-none_missing :
          Ensures IsGone
            (ensure_containers cri id config pod running not_running)
            (λ u host. none_missing running pod.containers ≡ true)
      unfolding ensure_containers
      ensure_containers-none_missing =
          >>=-Ensures IsGone (λ r host. none_missing running pod.containers ≡ true)
            (λ u host. none_missing running pod.containers ≡ true)
            (create_loop cri id config pod running not_running [] pod.containers) _
            (create_loop-none_missing [] pod.containers) λ r host p u e. p

  module _ (codecs : PodCodecs) (cluster_namespace cluster_name component_name : String)
      (status : PodStatus) (pod : Pod) where
    abbrev StatusGone : Host W → Type 0
    StatusGone = IsGone status.pod_sandbox_id

    run_if_none-same :
        (config : PodSandboxConfig)
        → status.pod_sandbox_id ≢ ""
        → Ensures StatusGone
            (run_if_none cri codecs cluster_namespace cluster_name component_name
              status.pod_sandbox_id config)
            (λ i host. IsGone i host)
    run_if_none-same config ne =
        choose-Ensures StatusGone (λ i host. IsGone i host) (status.pod_sandbox_id == "") _ _
          (λ h. absurd (ne ((eq_iff status.pod_sandbox_id "").0 h)))
          λ h host p i e. subst (λ z. IsGone z host) (ok_inj e) p

    pub ensure_pod_from-none_missing :
        status.pod_sandbox_id ≢ ""
        → Ensures StatusGone
            (ensure_pod_from cri codecs cluster_namespace cluster_name component_name status pod)
            (λ i host. none_missing status.running_containers pod.containers ≡ true)
    unfolding ensure_pod_from
    ensure_pod_from-none_missing ne =
        let missing : Type 0 = none_missing status.running_containers pod.containers ≡ true in
        >>=-Ensures StatusGone (λ u. StatusGone) (λ i host. missing) (cri_runtime cri) _
          (λ host p u e.
            cri_runtime-Keeps cri (laws.sandboxes.Gone status.pod_sandbox_id)
              (laws.sandboxes.connection_keeps status.pod_sandbox_id) host p)
          λ u.
            >>=-Ensures StatusGone (λ config. StatusGone) (λ i host. missing)
              (lift (pod_sandbox_config codecs cluster_namespace cluster_name component_name pod)) _
              (λ host p c e. p)
              λ config.
                >>=-Ensures StatusGone (λ i host. IsGone i host) (λ i host. missing)
                  (run_if_none cri codecs cluster_namespace cluster_name component_name
                    status.pod_sandbox_id config)
                  _ (run_if_none-same config ne)
                  λ i.
                    >>=-Ensures (IsGone i) (λ u host. missing) (λ i host. missing)
                      (ensure_containers cri i config pod status.running_containers
                        status.not_running_containers)
                      _
                      (ensure_containers-none_missing i config pod status.running_containers
                        status.not_running_containers)
                      λ u host p j e. p

    replace_pod-none_missing :
        status.pod_sandbox_id ≢ ""
        → status.all_containers_running ≡ false
        → laws.sandboxes.Carries
            (pod_labels cluster_namespace cluster_name component_name pod.name)
            status.pod_sandbox_id
        → (host : Host W)
        → (delete_pod cri cluster_namespace cluster_name component_name pod.name host).0 ≡ ok tt
        → (id : String)
        → (replace_pod cri codecs cluster_namespace cluster_name component_name pod status host).0
          ≡ ok id
        → none_missing status.running_containers pod.containers ≡ true
    replace_pod-none_missing ne stopped carries host deleted id =
        choose-Ensures (λ h. h ≡ host)
          (λ i h. none_missing status.running_containers pod.containers ≡ true)
          (status.is_pod_running && status.all_containers_running) _ _
          (λ h. absurd (ground (arith, h, stopped)))
          (λ h host' same i e.
            ensure_pod_from-none_missing ne _
              (subst
                (λ z.
                  StatusGone
                    (delete_pod cri cluster_namespace cluster_name component_name pod.name z).1)
                (sym same)
                (delete_pod-Gone cri laws.sandboxes status.pod_sandbox_id cluster_namespace
                  cluster_name component_name pod.name carries host deleted))
              i e)
          host refl id

    abbrev found : Host W → Result PodStatus × Host W
    found = is_pod_running cri codecs cluster_namespace cluster_name component_name pod

    -- EnsurePod does not repair a pod: if IsPodRunning finds a ready sandbox of the pod, with an id,
    -- in which not as many containers run as the pod has and one of the pod's is missing, and the
    -- pods of that name can be deleted, this sandbox with them, then EnsurePod returns an error. It
    -- creates the missing container in the sandbox that it has deleted, which the runtime refuses.
    pub ensure_pod-none_missing :
        status.pod_sandbox_id ≢ ""
        → status.all_containers_running ≡ false
        → none_missing status.running_containers pod.containers ≡ false
        → laws.sandboxes.Carries
            (pod_labels cluster_namespace cluster_name component_name pod.name)
            status.pod_sandbox_id
        → (host : Host W)
        → (is_pod_running cri codecs cluster_namespace cluster_name component_name pod host).0
          ≡ ok status
        → (delete_pod cri cluster_namespace cluster_name component_name pod.name
            (is_pod_running cri codecs cluster_namespace cluster_name component_name pod host).1).0
          ≡ ok tt
        → (id : String)
        → (ensure_pod cri codecs cluster_namespace cluster_name component_name pod host).0 ≢ ok id
    unfolding ensure_pod
    ensure_pod-none_missing ne stopped missing carries host seen deleted id =
        >>=-Ensures (λ h. h ≡ host) (λ st h. (st ≡ status) × (h ≡ (found host).1)) (λ i h. ⊥) found
          (replace_pod cri codecs cluster_namespace cluster_name component_name pod)
          (λ h same st e.
            (ok_inj (sym e ∙ ap (λ z. (found z).0) same ∙ seen), ap (λ z. (found z).1) same))
          (λ st h (s, w) i e.
            let run : (replace_pod cri codecs cluster_namespace cluster_name component_name pod
                  status (found host).1).0
                ≡ ok i =
              subst
                (λ z.
                  (replace_pod cri codecs cluster_namespace cluster_name component_name pod status
                    z).0
                  ≡ ok i)
                w
                (subst
                  (λ z.
                    (replace_pod cri codecs cluster_namespace cluster_name component_name pod z h).0
                    ≡ ok i)
                  s e) in
            let all = replace_pod-none_missing ne stopped carries (found host).1 deleted i run in
            ground (arith, all, missing))
          host refl id

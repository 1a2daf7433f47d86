-- ===== src/Infra/Pods/Ensuring.antt =====
-- IsPodRunning, EnsurePod, ensurePod and ensureContainers of internal/pkg/infra/hypervisor.go.
pub mod Repair
pub mod Creation
use oneinfra.Base.{
  ◌-◌, String, Bool, true, false, ◌&&◌, Option, none, some, List, [], ◌∷◌, ◌++◌, ◌==◌, eqb,
  if◌then◌else◌, length, concat,
}
use oneinfra.Base.Errors.{ok, err, Result, Exec, Error}
use oneinfra.Base.Actions.{choose, pure, ◌>>=◌, lift}
use oneinfra.Dict
use oneinfra.Dict.{Dict}
use oneinfra.Infra.Pods.{
  ContainerRuntime, Host, call, cri_runtime, sandbox_labels, sha1_sum, pod_sandbox_config, Pod,
  Container, CriContainer, PodSandbox, PodSandboxConfig, CreateContainerRequest, PodSandboxState,
  sandbox_ready, sandbox_notready, ContainerState, container_running, security_context, PodCodecs,
}
use oneinfra.Infra.Pods.Deleting.{delete_pod}

-- What IsPodRunning returns beside an error.
pub record PodStatus : Type 0 where
  pub is_pod_running : Bool
  pub pod_sandbox_id : String
  pub all_containers_running : Bool
  pub running_containers : Dict CriContainer
  pub not_running_containers : Dict CriContainer

abbrev pub no_pod : PodStatus
no_pod = record {
  is_pod_running = false;
  pod_sandbox_id = "";
  all_containers_running = false;
  running_containers = [];
  not_running_containers = [];
}

abbrev pub is_ready : PodSandboxState → Bool
is_ready sandbox_ready = true
is_ready sandbox_notready = false

-- The id of the first sandbox that is ready, or "".
abbrev pub ready_sandbox : List PodSandbox → String
ready_sandbox [] = ""
ready_sandbox (sandbox ∷ items) = if is_ready sandbox.state then sandbox.id else ready_sandbox items

abbrev pub is_running : ContainerState → Bool
is_running container_running = true
is_running _ = false

-- podRunningContainers and podNotRunningContainers
abbrev pub Sorted : Type 0
Sorted = Dict CriContainer × Dict CriContainer

abbrev pub sort_by_state : CriContainer → Sorted → Result ContainerState → Sorted
sort_by_state container (running, not_running) (err e) = (running, not_running)
sort_by_state container (running, not_running) (ok state) =
    if is_running state
    then (Dict.insert container.name container running, not_running)
    else (running, Dict.insert container.name container not_running)

abbrev pub create_request : String → PodSandboxConfig → Pod → Container → CreateContainerRequest
create_request pod_sandbox_id config pod container = record {
  pod_sandbox_id = pod_sandbox_id;
  name = container.name;
  image = container.image;
  command = container.command;
  args = container.args;
  mounts = container.mounts;
  log_path =
      concat pod.name
        (concat "-" (concat pod_sandbox_id (concat "-" (concat container.name ".log"))));
  envs = container.env;
  linux = security_context container.privileges;
  sandbox_config = config;
}

module _ {W : Type 0} (cri : ContainerRuntime W) where
  -- A container whose state cannot be read is in neither map.
  unfoldable pub sort_loop : Sorted → List CriContainer → Exec (Host W) Sorted
  sort_loop sorted [] host = (ok sorted, host)
  sort_loop sorted (container ∷ containers) host =
      let (status, host') = call (cri.container_status container.id) host in
      sort_loop (sort_by_state container sorted status) containers host'

  abbrev pub status_of : String → Pod → Sorted → PodStatus
  status_of pod_sandbox_id pod (running, not_running) = record {
    is_pod_running = true;
    pod_sandbox_id = pod_sandbox_id;
    all_containers_running = eqb (length running) (length pod.containers);
    running_containers = running;
    not_running_containers = not_running;
  }

  abbrev pub containers_of : String → Pod → Exec (Host W) PodStatus
  containers_of pod_sandbox_id pod = do
    containers ← call (cri.list_containers pod_sandbox_id)
    sorted ← sort_loop ([], []) containers
    pure (status_of pod_sandbox_id pod sorted)

  abbrev pub sandbox_status : Pod → String → Exec (Host W) PodStatus
  sandbox_status pod pod_sandbox_id =
      choose (pod_sandbox_id == "") (pure no_pod) (containers_of pod_sandbox_id pod)

  module _ (codecs : PodCodecs) (cluster_namespace cluster_name component_name : String) where
    unfoldable pub is_pod_running : Pod → Exec (Host W) PodStatus
    unfolding cri_runtime sha1_sum sort_loop
    is_pod_running pod = do
      client ← cri_runtime cri
      pod_sum ← lift (sha1_sum codecs pod)
      items ← call (
          cri.list_pod_sandbox
            (sandbox_labels cluster_namespace cluster_name component_name pod.name pod_sum))
      sandbox_status pod (ready_sandbox items)

  -- A failure to remove the old container is only logged.
  abbrev pub remove_not_running : Option CriContainer → Host W → Host W
  remove_not_running none host = host
  remove_not_running (some container) host = (call (cri.remove_container container.id) host).1

  unfoldable pub start_loop : List String → Exec (Host W) Unit
  start_loop [] = pure tt
  start_loop (container_id ∷ container_ids) =
      call (cri.start_container container_id) >>= λ started. start_loop container_ids

  module _ (pod_sandbox_id : String) (config : PodSandboxConfig) (pod : Pod)
      (running not_running : Dict CriContainer) where
    -- The round of the first loop for a container that is not running.
    abbrev pub create_missing : Container → Exec (Host W) String
    create_missing container host =
        call (cri.create_container (create_request pod_sandbox_id config pod container))
          (remove_not_running (Dict.lookup container.name not_running) host)

    unfoldable pub create_loop : List String → List Container → Exec (Host W) (List String)
    create_loop container_ids [] = pure container_ids
    create_loop container_ids (container ∷ containers) =
        choose (Dict.has container.name running) (create_loop container_ids containers) (
          create_missing container >>= λ container_id.
          create_loop (container_ids ++ container_id ∷ []) containers)

    unfoldable pub ensure_containers : Exec (Host W) Unit
    unfolding create_loop start_loop
    ensure_containers = create_loop [] pod.containers >>= start_loop

  module _ (codecs : PodCodecs) (cluster_namespace cluster_name component_name : String) where
    -- if podSandboxID == "" { podSandboxID = RunPodSandbox(…) }
    abbrev pub run_if_none : String → PodSandboxConfig → Exec (Host W) String
    run_if_none pod_sandbox_id config =
        choose (pod_sandbox_id == "") (call (cri.run_pod_sandbox config)) (pure pod_sandbox_id)

    unfoldable pub ensure_pod_from : PodStatus → Pod → Exec (Host W) String
    unfolding cri_runtime pod_sandbox_config ensure_containers
    ensure_pod_from status pod = do
      client ← cri_runtime cri
      config ← lift (pod_sandbox_config codecs cluster_namespace cluster_name component_name pod)
      pod_sandbox_id ← run_if_none status.pod_sandbox_id config
      done ←
          ensure_containers pod_sandbox_id config pod status.running_containers
            status.not_running_containers
      pure pod_sandbox_id

    -- A failure to delete the pods is only logged.
    abbrev pub replace_pod : Pod → PodStatus → Exec (Host W) String
    replace_pod pod status =
        choose (status.is_pod_running && status.all_containers_running) (pure status.pod_sandbox_id)
          λ host.
            ensure_pod_from status pod
              (delete_pod cri cluster_namespace cluster_name component_name pod.name host).1

    unfoldable pub ensure_pod : Pod → Exec (Host W) String
    unfolding is_pod_running delete_pod ensure_pod_from
    ensure_pod pod = do
      status ← is_pod_running codecs cluster_namespace cluster_name component_name pod
      replace_pod pod status

-- ===== src/Infra/Pods.antt =====
-- internal/pkg/infra/pod/pod.go, and the pods of internal/pkg/infra/hypervisor.go: the data, the
-- container runtime of a hypervisor, whose operations are parameters over its state `W`, and the
-- configuration of a pod sandbox.
pub mod Calls
pub mod Images
pub mod Deleting
pub mod Ensuring
pub mod Waiting
use oneinfra.Base.{
  ℕ, ◌-◌, ◌%◌, ◌^◌, String, Bool, true, Option, none, some, List, [], ◌∷◌, ◌++◌, ◌==◌, eqb,
  if◌then◌else◌, concat,
}
use oneinfra.Base.Errors.{errorf, err, ok, Result, Exec, Error}
use oneinfra.Base.Actions.{choose, pure, ◌>>=◌}
use oneinfra.Dict.{Dict}

-- A bit mask.
abbrev pub Privileges : Type 0
Privileges = ℕ

abbrev pub privileges_unprivileged : Privileges
privileges_unprivileged = 0

abbrev pub privileges_privileged : Privileges
privileges_privileged = 1

abbrev pub privileges_network_privileged : Privileges
privileges_network_privileged = 3

pub record Container : Type 0 where
  pub name : String
  pub image : String
  pub command : List String
  pub args : List String
  pub env : Dict String
  pub mounts : Dict String
  pub privileges : Privileges
  pub annotations : Dict String

-- `ports` is the map of the host's ports to the pod's, as its entries.
pub record Pod : Type 0 where
  pub name : String
  pub containers : List Container
  pub ports : List (ℕ × ℕ)
  pub privileges : Privileges

-- The security context of a sandbox or a container: privileged, and in the network of the node.
pub record SecurityContext : Type 0 where
  pub privileged : Bool
  pub node_network : Bool

-- The requests to the container runtime and its answers, as far as the code reads and writes them.
pub record PodSandboxConfig : Type 0 where
  pub name : String
  pub namespace : String
  pub uid : String
  pub labels : Dict String
  pub port_mappings : List (ℕ × ℕ)
  pub log_directory : String
  pub linux : Option SecurityContext

pub record CreateContainerRequest : Type 0 where
  pub pod_sandbox_id : String
  pub name : String
  pub image : String
  pub command : List String
  pub args : List String
  pub mounts : Dict String
  pub log_path : String
  pub envs : Dict String
  pub linux : Option SecurityContext
  pub sandbox_config : PodSandboxConfig

pub data PodSandboxState : Type 0 where
  sandbox_ready sandbox_notready : PodSandboxState

pub record PodSandbox : Type 0 where
  pub id : String
  pub state : PodSandboxState

pub data ContainerState : Type 0 where
  container_created container_running container_exited container_unknown : ContainerState

pub record CriContainer : Type 0 where
  pub id : String
  pub name : String
  pub state : ContainerState

-- `connection` is the dialled endpoint, `image_status` tells whether the image is there, and `sleep`
-- is what happens to the state while the code waits.
pub record ContainerRuntime (W : Type 0) : Type 0 where
  pub connection : Exec W Unit
  pub image_status : String → Exec W Bool
  pub pull_image : String → Exec W Unit
  pub list_pod_sandbox : Dict String → Exec W (List PodSandbox)
  pub run_pod_sandbox : PodSandboxConfig → Exec W String
  pub stop_pod_sandbox : String → Exec W Unit
  pub remove_pod_sandbox : String → Exec W Unit
  pub list_containers : String → Exec W (List CriContainer)
  pub container_status : String → Exec W ContainerState
  pub create_container : CreateContainerRequest → Exec W String
  pub start_container : String → Exec W Unit
  pub remove_container : String → Exec W Unit
  pub sleep : W → W

-- The encodings that the code calls: `yaml.Marshal` of a pod, and sums printed with `%x`.
pub record PodCodecs : Type 0 where
  pub marshal : Pod → Result String
  pub sha1_hex : String → String

-- A hypervisor's clients, cached once they are made, and the state behind them.
pub record Host (W : Type 0) : Type 0 where
  pub has_runtime_client : Bool
  pub has_image_client : Bool
  pub world : W

module _ {W A : Type 0} where
  abbrev pub after_call : Host W → Result A × W → Result A × Host W
  after_call host (r, w) = (r, record host { world = w })

  -- A call through a client.
  abbrev pub call : Exec W A → Exec (Host W) A
  call op host = after_call host (op host.world)

module _ {W : Type 0} (cri : ContainerRuntime W) where
  unfoldable pub cri_runtime : Exec (Host W) Unit
  cri_runtime host =
      choose host.has_runtime_client (pure tt)
        (call cri.connection >>= λ conn h. (ok tt, record h { has_runtime_client = true })) host

  unfoldable pub cri_image : Exec (Host W) Unit
  cri_image host =
      choose host.has_image_client (pure tt)
        (call cri.connection >>= λ conn h. (ok tt, record h { has_image_client = true })) host

-- The text of the error of `marshal` is left out of the error returned.
abbrev pub sum_of_manifest : PodCodecs → Pod → Result String → Result String
sum_of_manifest codecs pod (ok manifest) = ok (codecs.sha1_hex manifest)
sum_of_manifest codecs pod (err e) = err (errorf "cannot marshal pod %q: %v" (pod.name ∷ []))

unfoldable pub sha1_sum : PodCodecs → Pod → Result String
sha1_sum codecs pod = sum_of_manifest codecs pod (codecs.marshal pod)

-- fmt.Sprintf("%s-", name) if there is a name.
abbrev pub with_dash : String → String
with_dash name = if name == "" then "" else concat name "-"

-- int32 of each port, by the bits it keeps.
abbrev pub port_mappings : List (ℕ × ℕ) → List (ℕ × ℕ)
port_mappings [] = []
port_mappings ((host_port, pod_port) ∷ ports) =
    (host_port % 2 ^ 32, pod_port % 2 ^ 32) ∷ port_mappings ports

-- The same tests are made on the privileges of a pod and on those of a container.
abbrev pub security_context : Privileges → Option SecurityContext
security_context privileges =
    if eqb (privileges % 2) 0
    then none
    else some
        (record { privileged = true; node_network = eqb privileges privileges_network_privileged })

abbrev pub cluster_labels : String → String → String → Dict String
cluster_labels cluster_namespace cluster_name component_name =
    ("oneinfra/cluster-namespace", cluster_namespace)
    ∷ ("oneinfra/cluster-name", cluster_name)
    ∷ ("oneinfra/component-name", component_name)
    ∷ []

abbrev pub pod_labels : String → String → String → String → Dict String
pod_labels cluster_namespace cluster_name component_name pod_name =
    cluster_labels cluster_namespace cluster_name component_name
    ++ ("oneinfra/pod-name", pod_name) ∷ []

abbrev pub sandbox_labels : String → String → String → String → String → Dict String
sandbox_labels cluster_namespace cluster_name component_name pod_name pod_sum =
    pod_labels cluster_namespace cluster_name component_name pod_name
    ++ ("oneinfra/pod-sha1sum", pod_sum) ∷ []

abbrev pub config_of_sum : String → String → String → Pod → Result String → Result PodSandboxConfig
config_of_sum cluster_namespace cluster_name component_name pod (err e) = err e
config_of_sum cluster_namespace cluster_name component_name pod (ok pod_sum) = ok (record {
  name = pod.name;
  namespace = concat (with_dash cluster_namespace) (
      concat (with_dash cluster_name)
        (concat (with_dash component_name) (concat pod.name (concat "-" pod_sum))));
  uid = pod_sum;
  labels = sandbox_labels cluster_namespace cluster_name component_name pod.name pod_sum;
  port_mappings = port_mappings pod.ports;
  log_directory = "/var/log/pods/";
  linux = security_context pod.privileges;
})

unfoldable pub pod_sandbox_config :
    PodCodecs → String → String → String → Pod → Result PodSandboxConfig
unfolding sha1_sum
pod_sandbox_config codecs cluster_namespace cluster_name component_name pod =
    config_of_sum cluster_namespace cluster_name component_name pod (sha1_sum codecs pod)

-- ===== src/Examples/Pods.antt =====
-- Pods and files on a hypervisor whose container runtime is in memory.
use oneinfra.Infra.Files.Laws.{upload_files-IsCurrent, upload_files_twice, IsCurrent}
use oneinfra.Infra.Pods.Ensuring.Creation.{ensure_pod-AllRun}
use oneinfra.Infra.Pods.Ensuring.Repair.{ensure_pod-none_missing}
use oneinfra.Infra.Pods.Waiting.Exits.{run_and_wait_for_pod-Gone, DeletedAfterExit}
use oneinfra.Infra.Pods.Deleting.{delete_pods-Gone, delete_pod, delete_pods}
use oneinfra.Infra.Pods.Images.{ensure_images-Present, ensure_images}
use oneinfra.Infra.Pods.Waiting.{wait_for_pod-is_over, Outcome, run_and_wait_for_pod, wait_for_pod}
use oneinfra.Infra.Pods.Ensuring.{PodStatus, is_pod_running, ensure_pod}
use oneinfra.Dict.{Dict}
use oneinfra.Base.{
  ℕ, ◌<◌, String, ◌≡◌, refl, ◌≢◌, true, false, some, [], ◌∷◌, arith, eq_iff, All, concat,
}
use oneinfra.Base.Errors.{ok}
use oneinfra.Examples.Runtime.{
  in_memory_gone_laws, in_memory_sandbox_laws, in_memory_container_laws, in_memory_image_laws,
  in_memory, Node,
}
use oneinfra.Examples.{host_a}
use oneinfra.Infra.Hypervisor.{Hypervisor}
use oneinfra.Infra.Pods.{container_running, Host, Pod, Container, PodCodecs}
use oneinfra.Infra.Files.{upload_files, tooling_image, FileCodecs}

abbrev pub pod_codecs : PodCodecs
pod_codecs = record { marshal = λ pod. ok pod.name; sha1_hex = λ text. concat "sha1-" text }

abbrev file_codecs : FileCodecs
file_codecs = record { md5_hex = λ text. text; base64 = λ text. text; path_dir = λ path. "/etc" }

abbrev pub bare_container : String → Container
bare_container name = record {
  name = name;
  image = "image";
  command = [];
  args = [];
  env = [];
  mounts = [];
  privileges = 0;
  annotations = [];
}

abbrev web_pod : Pod
web_pod = record {
  name = "web";
  containers = bare_container "server" ∷ bare_container "proxy" ∷ [];
  ports = [];
  privileges = 0;
}

abbrev pub idle_node : Node
idle_node = record {
  images = "pause" ∷ [];
  sandboxes = [];
  containers = [];
  started = [];
  clock = 0;
}

abbrev pub idle_host : Host Node
idle_host = record { has_runtime_client = false; has_image_client = false; world = idle_node }

-- One of the two containers of the pod runs.
abbrev half_host : Host Node
half_host = record idle_host {
  world = record idle_node {
    sandboxes = "sandbox-web" ∷ [];
    containers = ("sandbox-web/server", "server") ∷ [];
    started = "sandbox-web/server" ∷ [];
  };
}

ensure_images-Present_example :
    All
      (λ i.
        in_memory_image_laws.Present i
          (ensure_images in_memory ("pause" ∷ "etcd" ∷ []) idle_host).1.world)
      ("pause" ∷ "etcd" ∷ [])
unfolding ensure_images
ensure_images-Present_example =
    ensure_images-Present in_memory in_memory_image_laws ("pause" ∷ "etcd" ∷ []) idle_host refl

delete_pods-Gone_example :
    in_memory_sandbox_laws.Gone "sandbox-web"
      (delete_pods in_memory "default" "cluster" "component" half_host).1.world
unfolding delete_pods
delete_pods-Gone_example =
    delete_pods-Gone in_memory in_memory_sandbox_laws "sandbox-web" "default" "cluster" "component"
      tt half_host refl

abbrev half_status : PodStatus
half_status = record {
  is_pod_running = true;
  pod_sandbox_id = "sandbox-web";
  all_containers_running = false;
  running_containers =
      ("server", record { id = "sandbox-web/server"; name = "server"; state = container_running })
      ∷ [];
  not_running_containers = [];
}

web_id_named : half_status.pod_sandbox_id ≢ ""
web_id_named e = ground (arith, (eq_iff "sandbox-web" "").1 e)

ensure_pod-none_missing_example :
    (ensure_pod in_memory pod_codecs "default" "cluster" "component" web_pod half_host).0
    ≢ ok "sandbox-web"
unfolding is_pod_running delete_pod oneinfra.Dict.has oneinfra.Dict.insert
ensure_pod-none_missing_example =
    ensure_pod-none_missing in_memory in_memory_gone_laws pod_codecs "default" "cluster" "component"
      half_status web_pod web_id_named refl refl tt half_host refl refl "sandbox-web"

ensure_pod-AllRun_example :
    All
      (λ (c : Container).
        in_memory_container_laws.Runs "sandbox-web" c.name
          (ensure_pod in_memory pod_codecs "default" "cluster" "component" web_pod
            idle_host).1.world)
      web_pod.containers
unfolding ensure_pod oneinfra.Dict.has oneinfra.Dict.lookup
ensure_pod-AllRun_example =
    ensure_pod-AllRun in_memory in_memory_container_laws pod_codecs "default" "cluster" "component"
      web_pod idle_host refl "sandbox-web" refl

wait_for_pod-is_over_example :
    (result : Outcome × Host Node) × ((rounds : ℕ)
      → 1 < rounds
      → wait_for_pod in_memory rounds "sandbox-web" half_host ≡ some result)
unfolding wait_for_pod
wait_for_pod-is_over_example = wait_for_pod-is_over in_memory "sandbox-web" 1 half_host refl

abbrev done_host : Host Node
done_host = record {
  has_runtime_client = true;
  has_image_client = false;
  world = record {
    images = "pause" ∷ [];
    sandboxes = [];
    containers = ("sandbox-web/proxy", "proxy") ∷ ("sandbox-web/server", "server") ∷ [];
    started = "sandbox-web/proxy" ∷ "sandbox-web/server" ∷ [];
    clock = 1;
  };
}

run_and_wait_for_pod-Gone_example :
    (id : String) × ((ensure_pod in_memory pod_codecs "default" "cluster" "component" web_pod
        idle_host).0
      ≡ ok id)
    × DeletedAfterExit in_memory id done_host
    × in_memory_sandbox_laws.Gone id done_host.world
unfolding run_and_wait_for_pod oneinfra.Dict.has oneinfra.Dict.lookup
run_and_wait_for_pod-Gone_example =
    run_and_wait_for_pod-Gone in_memory in_memory_sandbox_laws pod_codecs "default" "cluster"
      "component" 2 web_pod idle_host done_host refl

-- A hypervisor that keeps the sums of its files.
abbrev pub host_with_files : Hypervisor
host_with_files = record host_a { files = some [] }

abbrev two_files : Dict String
two_files = ("/etc/a", "first") ∷ ("/etc/b", "second") ∷ []

-- The hypervisor and its host after two files were uploaded.
abbrev uploaded_hypervisor : Hypervisor
uploaded_hypervisor = record host_with_files {
  files = some (
      (
        "default",
        ("cluster", ("component", ("/etc/a", "sha1-first") ∷ ("/etc/b", "sha1-second") ∷ []) ∷ [])
            ∷ [],
      )
      ∷ []);
}

abbrev uploaded_host : Host Node
uploaded_host = record {
  has_runtime_client = true;
  has_image_client = true;
  world = record {
    images = tooling_image ∷ "pause" ∷ [];
    sandboxes = [];
    containers =
        ("sandbox-upload-files/upload-file-second", "upload-file-second")
        ∷ ("sandbox-upload-files/upload-file-first", "upload-file-first")
        ∷ [];
    started =
        "sandbox-upload-files/upload-file-second" ∷ "sandbox-upload-files/upload-file-first" ∷ [];
    clock = 1;
  };
}

upload_files-IsCurrent_example :
    All (IsCurrent pod_codecs "default" "cluster" "component" uploaded_hypervisor) two_files
unfolding upload_files oneinfra.Dict.has oneinfra.Dict.lookup oneinfra.Dict.insert
upload_files-IsCurrent_example =
    upload_files-IsCurrent pod_codecs "default" "cluster" "component" file_codecs in_memory 2
      two_files host_with_files uploaded_hypervisor idle_host uploaded_host [] (refl, (refl, tt))
      refl refl

upload_files_twice_example :
    upload_files pod_codecs "default" "cluster" "component" file_codecs in_memory 2 two_files
      uploaded_hypervisor uploaded_host
    ≡ some (ok tt, uploaded_hypervisor, uploaded_host)
unfolding upload_files oneinfra.Dict.has oneinfra.Dict.lookup oneinfra.Dict.insert
upload_files_twice_example =
    upload_files_twice pod_codecs "default" "cluster" "component" file_codecs in_memory 2 two_files
      host_with_files uploaded_hypervisor idle_host uploaded_host uploaded_host []
      (refl, (refl, tt)) refl refl

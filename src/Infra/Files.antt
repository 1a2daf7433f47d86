-- ===== src/Infra/Files.antt =====
-- UploadFiles, UploadFile and FileUpToDate of internal/pkg/infra/hypervisor.go. The sums of the files
-- are kept in the hypervisor, and the files themselves are written by a pod.
pub mod Laws
use oneinfra.Base.{
  ℕ, String, Bool, false, Option, none, some, List, [], ◌∷◌, ◌==◌, if◌then◌else◌, concat,
}
use oneinfra.Base.Errors.{ok, err, Error}
use oneinfra.Dict
use oneinfra.Dict.{Dict}
use oneinfra.Infra.Hypervisor.{Hypervisor, FileMap, NamespacedClusterFileMap}
use oneinfra.Infra.Pods.{ContainerRuntime, Host, Container, Pod, PodCodecs}
use oneinfra.Infra.Pods.Images.{ensure_image}
use oneinfra.Infra.Pods.Waiting.{run_and_wait_for_pod, Awaited, Outcome}

-- The encodings of the standard library that the code calls beside those of a pod.
pub record FileCodecs : Type 0 where
  pub md5_hex : String → String
  pub base64 : String → String
  pub path_dir : String → String

abbrev pub tooling_image : String
tooling_image = "oneinfra/tooling:latest"

-- A read of a map of maps: a map that is not there reads like an empty one.
abbrev pub or_empty {ℓ} : {V : Type ℓ} → Option (Dict V) → Dict V
or_empty none = []
or_empty (some entries) = entries

module _ (codecs : PodCodecs) (cluster_namespace cluster_name component_name : String) where
  abbrev pub component_files : Option NamespacedClusterFileMap → FileMap
  component_files files = or_empty (
      Dict.lookup component_name (
        or_empty
          (Dict.lookup cluster_name (or_empty (Dict.lookup cluster_namespace (or_empty files))))))

  abbrev pub has_sum : Option String → String → Bool
  has_sum none sum = false
  has_sum (some current_sum) sum = current_sum == sum

  unfoldable pub file_up_to_date : Hypervisor → String → String → Bool
  file_up_to_date hypervisor host_path file_contents =
      has_sum (Dict.lookup host_path (component_files hypervisor.files))
        (codecs.sha1_hex file_contents)

  -- The loop that writes down the sums of the files.
  unfoldable pub record_sums : FileMap → Dict String → FileMap
  record_sums sums [] = sums
  record_sums sums ((file_location, file_contents) ∷ files) =
      record_sums (Dict.insert file_location (codecs.sha1_hex file_contents) sums) files

  abbrev pub files_recorded : Dict String → NamespacedClusterFileMap → NamespacedClusterFileMap
  files_recorded files known =
      let cluster_files = or_empty (Dict.lookup cluster_namespace known) in
      let components_files = or_empty (Dict.lookup cluster_name cluster_files) in
      let sums = or_empty (Dict.lookup component_name components_files) in
      Dict.insert cluster_namespace
        (Dict.insert cluster_name
          (Dict.insert component_name (record_sums sums files) components_files) cluster_files)
        known

  abbrev pub record_files :
      Dict String → Option NamespacedClusterFileMap → Option NamespacedClusterFileMap
  record_files files none = none
  record_files files (some known) = some (files_recorded files known)

  module _ (file_codecs : FileCodecs) where
    abbrev pub upload_container : String → String → Container
    upload_container file_location file_contents = record {
      name = concat "upload-file-" (file_codecs.md5_hex file_contents);
      image = tooling_image;
      command = "write-base64-file.sh" ∷ [];
      args = file_codecs.base64 file_contents ∷ file_location ∷ [];
      env = [];
      mounts = (file_codecs.path_dir file_location, file_codecs.path_dir file_location) ∷ [];
      privileges = 0;
      annotations = [];
    }

    unfoldable pub files_to_upload : Hypervisor → Dict String → List Container
    unfolding file_up_to_date
    files_to_upload hypervisor [] = []
    files_to_upload hypervisor ((file_location, file_contents) ∷ files) =
        if file_up_to_date hypervisor file_location file_contents
        then files_to_upload hypervisor files
        else upload_container file_location file_contents ∷ files_to_upload hypervisor files

    abbrev pub upload_pod : List Container → Pod
    upload_pod containers = record {
      name = "upload-files";
      containers = containers;
      ports = [];
      privileges = 0;
    }

    module _ {W : Type 0} (cri : ContainerRuntime W) (rounds : ℕ) where
      -- The result, the hypervisor and the state behind it, if the wait for the pod is over.
      abbrev pub Uploaded : Type 0
      Uploaded = Option (Outcome × Hypervisor × Host W)

      abbrev pub record_uploaded : Dict String → Hypervisor → Awaited W → Uploaded
      record_uploaded files hypervisor none = none
      record_uploaded files hypervisor (some (err e, host)) = some (err e, hypervisor, host)
      record_uploaded files hypervisor (some (ok done, host)) =
          some (ok done, record hypervisor { files = record_files files hypervisor.files }, host)

      abbrev pub upload_with_image :
          Dict String → List Container → Hypervisor → Outcome × Host W → Uploaded
      upload_with_image files containers hypervisor (err e, host) = some (err e, hypervisor, host)
      upload_with_image files containers hypervisor (ok done, host) =
          record_uploaded files hypervisor (
            run_and_wait_for_pod cri codecs cluster_namespace cluster_name component_name rounds
              (upload_pod containers) host)

      abbrev pub upload_needed : Dict String → List Container → Hypervisor → Host W → Uploaded
      upload_needed files [] hypervisor host = some (ok tt, hypervisor, host)
      upload_needed files (container ∷ containers) hypervisor host =
          upload_with_image files (container ∷ containers) hypervisor
            (ensure_image cri tooling_image host)

      unfoldable pub upload_files : Dict String → Hypervisor → Host W → Uploaded
      unfolding files_to_upload record_sums ensure_image run_and_wait_for_pod
      upload_files files hypervisor host =
          upload_needed files (files_to_upload hypervisor files) hypervisor host

      unfoldable pub upload_file : String → String → Hypervisor → Host W → Uploaded
      unfolding upload_files
      upload_file host_path file_contents = upload_files ((host_path, file_contents) ∷ [])

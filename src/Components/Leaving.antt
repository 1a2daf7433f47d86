-- ===== src/Components/Leaving.antt =====
-- What stops a component and cleans up after it: stopControlPlane, hostCleanup and ReconcileDeletion
-- of internal/pkg/component/components/control_plane.go, stopEtcd of etcd.go, and stopIngress,
-- hostCleanup and ReconcileDeletion of control_plane_ingress.go. What lies beyond the store is the
-- host of the component's hypervisor, through which etcd is reached too. `rounds`
-- bounds the wait for the pod that cleans up.
pub mod Released
use oneinfra.Base.{
  ℕ, ◌-◌, String, Bool, true, ◌&&◌, ◌||◌, Option, none, some, List, [], ◌∷◌, if◌then◌else◌, concat,
}
use oneinfra.Base.Errors.{ok, err, Error, Exec, Result}
use oneinfra.Dict
use oneinfra.Base.Actions.{pure, ◌>>=◌, ◌>>◌, raise, choose}
use oneinfra.Component.{Component}
use oneinfra.Component.Names.{
  api_server_host_port_name, etcd_peer_host_port_name, etcd_client_host_port_name,
  wireguard_host_port_name,
}
use oneinfra.Components.{
  Hypervisor, Stage, Inquirer, current_component, current_hypervisor, write_back, beyond,
}
use oneinfra.Components.Ports.{free_own_port}
use oneinfra.Components.Etcd.{EtcdApi}
use oneinfra.Components.Etcd.Membership.{remove_etcd_member}
use oneinfra.Components.FileMap.{cleanup_hypervisor_file_map}
use oneinfra.Infra.Pods.{ContainerRuntime, Host, Pod, Container, PodCodecs}
use oneinfra.Infra.Pods.Deleting.{delete_pod}
use oneinfra.Infra.Pods.Waiting.{run_and_wait_for_pod, Awaited}
use oneinfra.Infra.Files.{tooling_image}
use oneinfra.Components.Paths.{
  global_storage_path, namespaced_cluster_storage_path, cluster_storage_path,
  namespaced_cluster_secrets_path, component_storage_path, cluster_secrets_path,
  component_secrets_path, subcomponent_storage_path, global_secrets_path,
}

abbrev pub concat_all : List String → String
concat_all [] = ""
concat_all (text ∷ texts) = concat text (concat_all texts)

abbrev pub cleanup_container : String → String → String → Container
cleanup_container name script path = record {
  name = name;
  image = tooling_image;
  command = "/bin/sh" ∷ [];
  args = "-c" ∷ script ∷ [];
  env = [];
  mounts = (path, path) ∷ [];
  privileges = 0;
  annotations = [];
}

module _ (join_path : String → String → String)
    (cluster_namespace cluster_name component_name : String) where
  abbrev pub secrets_cleanup : Container
  secrets_cleanup =
      cleanup_container "secrets-cleanup"
        (concat_all (
          "rm -rf "
          ∷ component_secrets_path join_path cluster_namespace cluster_name component_name
          ∷ " && ((rmdir "
          ∷ cluster_secrets_path join_path cluster_namespace cluster_name
          ∷ " && rmdir "
          ∷ namespaced_cluster_secrets_path join_path cluster_namespace
          ∷ ") || true)"
          ∷ []))
        global_secrets_path

  abbrev pub etcd_cleanup : Container
  etcd_cleanup =
      cleanup_container "etcd-cleanup"
        (concat_all (
          "rm -rf "
          ∷ subcomponent_storage_path join_path cluster_namespace cluster_name component_name "etcd"
          ∷ " && ((rmdir "
          ∷ component_storage_path join_path cluster_namespace cluster_name component_name
          ∷ " && rmdir "
          ∷ cluster_storage_path join_path cluster_namespace cluster_name
          ∷ " && rmdir "
          ∷ namespaced_cluster_storage_path join_path cluster_namespace
          ∷ ") || true)"
          ∷ []))
        global_storage_path

  abbrev pub cleanup_pod : List Container → Pod
  cleanup_pod containers = record {
    name =
        concat_all
          (cluster_namespace ∷ "-" ∷ cluster_name ∷ "-" ∷ component_name ∷ "-cleanup" ∷ []);
    containers = containers;
    ports = [];
    privileges = 0;
  }

module _ {N : Type 0} (cri : ContainerRuntime N) (codecs : PodCodecs) (inquirer : Inquirer) where
  -- inquirer.Hypervisor().DeletePod(…) of a pod of the component.
  unfoldable pub delete_own_pod : String → Exec (Stage (Host N)) Unit
  unfolding delete_pod
  delete_own_pod pod_name =
      beyond
        (delete_pod cri inquirer.cluster_namespace inquirer.cluster_name inquirer.name pod_name)

  unfoldable pub stop_control_plane : Exec (Stage (Host N)) Unit
  unfolding delete_own_pod free_own_port
  stop_control_plane =
      delete_own_pod (concat "control-plane-" inquirer.cluster_name)
      >> free_own_port inquirer api_server_host_port_name

  unfoldable pub stop_etcd : Exec (Stage (Host N)) Unit
  unfolding delete_own_pod free_own_port
  stop_etcd =
      delete_own_pod (concat "etcd-" inquirer.cluster_name)
      >> free_own_port inquirer etcd_peer_host_port_name
      >> free_own_port inquirer etcd_client_host_port_name

  unfoldable pub stop_ingress : Bool → Exec (Stage (Host N)) Unit
  unfolding delete_own_pod free_own_port
  stop_ingress vpn_enabled =
      delete_own_pod (concat "control-plane-ingress-" inquirer.cluster_name)
      >> free_own_port inquirer api_server_host_port_name
      >> choose vpn_enabled (free_own_port inquirer wireguard_host_port_name) (pure tt)

  -- The result and the stage, if the wait for the pod that cleans up is over.
  abbrev pub Left : Type 0
  Left = Option (Result (Unit {0}) × Stage (Host N))

  abbrev pub drop_files : Component → Hypervisor → Stage (Host N) → Stage (Host N)
  drop_files component hypervisor stage = record stage {
    hypervisors =
        Dict.insert component.hypervisor_name
          (cleanup_hypervisor_file_map hypervisor inquirer.cluster_namespace inquirer.cluster_name
            component.name)
          stage.hypervisors;
  }

  abbrev pub cleaned : Component → Hypervisor → Stage (Host N) → Awaited N → Left
  cleaned component hypervisor stage none = none
  cleaned component hypervisor stage (some (err e, host)) =
      some (err e, record stage { world = host })
  cleaned component hypervisor stage (some (ok done, host)) =
      some (ok tt, drop_files component hypervisor (record stage { world = host }))

  abbrev pub cleanup_on : ℕ → Pod → Component → Result Hypervisor × Stage (Host N) → Left
  cleanup_on rounds pod component (err e, stage) = some (err e, stage)
  cleanup_on rounds pod component (ok hypervisor, stage) = cleaned component hypervisor stage (
      run_and_wait_for_pod cri codecs inquirer.cluster_namespace inquirer.cluster_name
        component.name rounds pod stage.world)

  abbrev pub cleanup_as : ℕ → Pod → Result Component × Stage (Host N) → Left
  cleanup_as rounds pod (err e, stage) = some (err e, stage)
  cleanup_as rounds pod (ok component, stage) =
      cleanup_on rounds pod component (current_hypervisor inquirer component stage)

  -- hostCleanup of both kinds of components, with the pod that they run.
  unfoldable pub host_cleanup : ℕ → Pod → Stage (Host N) → Left
  unfolding current_component current_hypervisor run_and_wait_for_pod
  host_cleanup rounds pod stage = cleanup_as rounds pod (current_component inquirer stage)

  abbrev pub cleanup_after : ℕ → Pod → Result (Unit {0}) × Stage (Host N) → Left
  cleanup_after rounds pod (err e, stage) = some (err e, stage)
  cleanup_after rounds pod (ok stopped, stage) = host_cleanup rounds pod stage

  -- hypervisor := inquirer.Hypervisor(); if hypervisor == nil { return nil }
  abbrev pub unless_gone : Result Component × Stage (Host N) → (Stage (Host N) → Left) → Left
  unless_gone (err e, stage) go = some (err e, stage)
  unless_gone (ok component, stage) go =
      if Dict.has component.hypervisor_name stage.hypervisors then go stage else some (ok tt, stage)

  module _ (join_path : String → String → String) (rounds : ℕ) where
    -- ControlPlane.ReconcileDeletion
    unfoldable pub control_plane_deletion : EtcdApi (Host N) → Bool → Stage (Host N) → Left
    unfolding current_component stop_control_plane remove_etcd_member stop_etcd host_cleanup
    control_plane_deletion etcd cluster_deleted stage =
        unless_gone (current_component inquirer stage) λ s.
          cleanup_after rounds
            (cleanup_pod join_path inquirer.cluster_namespace inquirer.cluster_name inquirer.name (
              etcd_cleanup join_path inquirer.cluster_namespace inquirer.cluster_name inquirer.name
              ∷ secrets_cleanup join_path inquirer.cluster_namespace inquirer.cluster_name
                  inquirer.name
              ∷ []))
            ((stop_control_plane
                >> choose cluster_deleted (pure tt) (remove_etcd_member etcd inquirer)
                >> stop_etcd)
              s)

    -- ControlPlaneIngress.ReconcileDeletion
    unfoldable pub ingress_deletion : Bool → Stage (Host N) → Left
    unfolding current_component stop_ingress host_cleanup
    ingress_deletion vpn_enabled stage = unless_gone (current_component inquirer stage) λ s.
        cleanup_after rounds
          (cleanup_pod join_path inquirer.cluster_namespace inquirer.cluster_name inquirer.name (
            secrets_cleanup join_path inquirer.cluster_namespace inquirer.cluster_name inquirer.name
            ∷ []))
          (stop_ingress vpn_enabled s)

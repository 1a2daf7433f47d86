-- ===== src/Examples/Leaving.antt =====
-- Components that request their host ports, and an ingress that is deleted.
use oneinfra.Components.FileMap.{
  file_up_to_date-cleanup_hypervisor_file_map, cleanup_hypervisor_file_map,
}
use oneinfra.Infra.Files.{file_up_to_date}
use oneinfra.Component.Names.{
  api_server_host_port_name, etcd_peer_host_port_name, etcd_client_host_port_name,
}
use oneinfra.Components.Leaving.Released.{Released, ingress_deletion-Released, ingress_ports}
use oneinfra.Components.Ports.Laws.{control_plane_pre_reconcile-Holds, Holds}
use oneinfra.Infra.Pods.{Host}
use oneinfra.Components.Leaving.{ingress_deletion}
use oneinfra.Components.Ports.{control_plane_pre_reconcile}
use oneinfra.Base.{◌≡◌, refl, true, false, some, [], ◌∷◌, concat}
use oneinfra.Examples.{Hypervisor, Component, host_a, component_a}
use oneinfra.Examples.Runtime.{in_memory, Node}
use oneinfra.Examples.Pods.{pod_codecs, idle_host}
use oneinfra.Components.{find_component, Stage, Inquirer}

abbrev of_a : Inquirer
of_a = record {
  namespace = "default";
  name = "cluster-control-plane-a";
  cluster_namespace = "default";
  cluster_name = "cluster";
}

abbrev stage_a : Stage (Host Node)
stage_a = record {
  components = component_a ∷ [];
  hypervisors = ("host-a", host_a) ∷ [];
  world = idle_host;
}

abbrev with_ports : Component
with_ports = record component_a {
  allocated_host_ports = ("apiserver", 30000) ∷ ("etcd-peer", 30001) ∷ ("etcd-client", 30002) ∷ [];
}

control_plane_pre_reconcile-Holds_example :
    (c : Component) × (find_component "default" "cluster-control-plane-a"
        (control_plane_pre_reconcile of_a stage_a).1.components
      ≡ some c)
    × Holds
        (etcd_client_host_port_name ∷ etcd_peer_host_port_name ∷ api_server_host_port_name ∷ [])
        c
unfolding control_plane_pre_reconcile oneinfra.Dict.lookup oneinfra.Component.request_port
    oneinfra.Infra.Ports.request_port oneinfra.Dict.insert oneinfra.Component.with_subcomponent_name
control_plane_pre_reconcile-Holds_example = control_plane_pre_reconcile-Holds of_a stage_a refl

abbrev leaving : Component
leaving = record component_a { allocated_host_ports = ("apiserver", 30000) ∷ [] }

abbrev stage_leaving : Stage (Host Node)
stage_leaving = record {
  components = leaving ∷ [];
  hypervisors =
      (
        "host-a",
        record host_a {
          files = some (
              (
                "default",
                ("cluster", ("cluster-control-plane-a", ("/etc/a", "sum") ∷ []) ∷ []) ∷ [],
              )
              ∷ []);
          allocated_ports =
              record {
                cluster_namespace = "default";
                cluster = "cluster";
                component = "cluster-control-plane-a-apiserver";
                port = 30000;
              }
              ∷ [];
        },
      )
      ∷ [];
  world = idle_host;
}

abbrev stage_left : Stage (Host Node)
stage_left = record {
  components = component_a ∷ [];
  hypervisors = ("host-a", record host_a { files = some []; freed_ports = 30000 ∷ [] }) ∷ [];
  world = record {
    has_runtime_client = true;
    has_image_client = false;
    world = record {
      images = "pause" ∷ [];
      sandboxes = [];
      containers =
          (
            "sandbox-default-cluster-cluster-control-plane-a-cleanup/secrets-cleanup",
            "secrets-cleanup",
          )
          ∷ [];
      started = "sandbox-default-cluster-cluster-control-plane-a-cleanup/secrets-cleanup" ∷ [];
      clock = 1;
    };
  };
}

ingress_deletion-Released_example :
    Released in_memory pod_codecs of_a (ingress_ports in_memory pod_codecs of_a false) stage_left
unfolding ingress_deletion oneinfra.Dict.has oneinfra.Dict.lookup oneinfra.Component.free_port
    oneinfra.Infra.Ports.free_port oneinfra.Components.put_component oneinfra.Dict.insert
    oneinfra.Dict.delete oneinfra.Components.FileMap.cleanup_hypervisor_file_map
    oneinfra.Component.with_subcomponent_name
ingress_deletion-Released_example =
    ingress_deletion-Released in_memory pod_codecs of_a concat 2 false stage_leaving stage_left
      leaving refl refl refl

abbrev leaving_host : Hypervisor
leaving_host = record host_a {
  files = some (("default", ("cluster", ("b", ("/etc/b", "sha1-b") ∷ []) ∷ []) ∷ []) ∷ []);
}

file_up_to_date-cleanup_hypervisor_file_map_example :
    file_up_to_date pod_codecs "default" "cluster" "b"
      (cleanup_hypervisor_file_map leaving_host "default" "cluster" "a")
      "/etc/b"
      "b"
    ≡ true
unfolding file_up_to_date oneinfra.Dict.lookup
file_up_to_date-cleanup_hypervisor_file_map_example =
    file_up_to_date-cleanup_hypervisor_file_map pod_codecs leaving_host "default" "cluster" "a"
      "default" "cluster" "b" "/etc/b" "b"

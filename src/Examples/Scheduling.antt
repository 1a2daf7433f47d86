-- ===== src/Examples/Scheduling.antt =====
-- An API server that keeps its objects in lists, codecs that write names, and what the scheduler
-- and the conversions do with them.
use oneinfra.Examples.{host_a, component_a}
use oneinfra.Component.Versioned.Laws.{import_ports-export}
use oneinfra.Controllers.Scheduler.{schedule_converted, Scheduling}
use oneinfra.Controllers.Scheduler.Laws.{schedule_converted-control_plane}
use oneinfra.Infra.Hypervisor.{local_endpoint, Hypervisor, HypervisorEndpoint}
use oneinfra.Controllers.{from_component, no_requeue, CtrlRequest, Client, Codecs}
use mathlib.Core.List.{Mem}
use oneinfra.Infra.Listing.{
  sample_hypervisor, public_list, list, HypervisorMap, private_list, DrawsBelow,
}
use oneinfra.Component.{Component}
use oneinfra.Infra.Versioned.{
  export_remote, VersionedHypervisor, export_local, new_hypervisor_from_v1alpha1,
}
use oneinfra.Infra.Versioned.Laws.{
  export-new_hypervisor_from_v1alpha1_known, new_hypervisor_from_v1alpha1-OneEndpoint,
  export-new_hypervisor_from_v1alpha1, OneEndpoint,
}
use oneinfra.Base.Errors.{ok}
use oneinfra.Component.Versioned.{new_component_from_v1alpha1, import_ports, VersionedComponent}
use oneinfra.Base.{ℕ, ◌<◌, ◌≡◌, refl, false, none, some, List, [], ◌∷◌, arith, length}
use oneinfra.Component.Versioned
use oneinfra.Infra.Versioned as HypervisorVersions
use oneinfra.Dict

abbrev codecs : Codecs
codecs = record {
  encode_hypervisor = λ v. some v.name;
  json_marshal = λ v. ok v.name;
  sha1_hex = λ s. s;
  sort_strings = λ l. l;
}

abbrev versioned_host : VersionedHypervisor
versioned_host = record {
  name = "host-a";
  resource_version = "1";
  labels = [];
  annotations = [];
  spec = record {
    local_cri_endpoint = some "/run/containerd.sock";
    remote_cri_endpoint = none;
    public = false;
    ip_address = "10.0.0.1";
    low = 30000;
    high = 30002;
  };
  status = record { allocated_ports = []; freed_ports = 30001 ∷ []; files = none };
}

abbrev imported_host : Hypervisor
imported_host = record host_a {
  freed_ports = 30001 ∷ [];
  files = some [];
  loaded_contents_hash = "host-a";
}

abbrev versioned_component : VersionedComponent
versioned_component =
    Versioned.export codecs.json_marshal codecs.sha1_hex codecs.sort_strings
      (record component_a { hypervisor_name = "" })

abbrev imported_component : Component
imported_component = record component_a {
  hypervisor_name = "";
  loaded_contents_hash = "cluster-control-plane-a";
}

abbrev Server : Type 0
Server = List VersionedComponent

abbrev client : Client Server
client = record {
  list_hypervisors = λ w. ok (versioned_host ∷ []);
  list_components = λ w. ok w;
  update_component = λ v w. (v ∷ [], none);
  create_component = λ v w. (v ∷ w, none);
  delete_component = λ v w. ([], none);
}

abbrev first_of_all : ℕ → ℕ → ℕ
first_of_all i n = 0

abbrev request : CtrlRequest
request = record { namespace = "default"; name = "cluster-control-plane-a" }

abbrev host_map : HypervisorMap
host_map = ("host-a", imported_host) ∷ []

host_imported :
    (new_hypervisor_from_v1alpha1 codecs.encode_hypervisor codecs.sha1_hex versioned_host []).0
    ≡ ok imported_host
unfolding new_hypervisor_from_v1alpha1 HypervisorVersions.specs Dict.lookup
    HypervisorVersions.export
host_imported = refl

abbrev pooled : HypervisorEndpoint
pooled = local_endpoint "/run/old.sock"

abbrev pooled_host : Hypervisor
pooled_host = record imported_host { endpoint = pooled }

pooled_imported :
    (new_hypervisor_from_v1alpha1 codecs.encode_hypervisor codecs.sha1_hex versioned_host
      (("host-a", pooled) ∷ [])).0
    ≡ ok pooled_host
unfolding new_hypervisor_from_v1alpha1 HypervisorVersions.specs Dict.lookup
    HypervisorVersions.export
pooled_imported = refl

abbrev start : Scheduling Server
start = record { world = []; hypervisor_list = []; result = no_requeue }

some_private : 0 < length (private_list host_map)
unfolding private_list
some_private = ground arith

first_below : DrawsBelow (first_of_all 0)
first_below n h = h

schedule_converted-control_plane_example :
    (h : Hypervisor) × Mem h (list host_map)
    × (h.public ≡ false)
    × (sample_hypervisor (first_of_all 0) (private_list host_map) ≡ ok h)
    × ((schedule_converted client codecs first_of_all request
          (private_list host_map)
          (public_list host_map)
          0
          (ok imported_component)
          start).world
        ≡ (client.update_component
            (from_component codecs (record imported_component { hypervisor_name = h.name }))
            []).0)
schedule_converted-control_plane_example =
    schedule_converted-control_plane client codecs first_of_all request host_map 0
      imported_component start first_below refl some_private

new_hypervisor_from_v1alpha1-OneEndpoint_example : OneEndpoint versioned_host
new_hypervisor_from_v1alpha1-OneEndpoint_example =
    new_hypervisor_from_v1alpha1-OneEndpoint codecs.encode_hypervisor codecs.sha1_hex versioned_host
      [] imported_host host_imported

export-new_hypervisor_from_v1alpha1_example :
    let w = HypervisorVersions.export codecs.encode_hypervisor codecs.sha1_hex imported_host in
    (w.spec ≡ versioned_host.spec)
    × (w.status.allocated_ports ≡ versioned_host.status.allocated_ports)
    × (w.status.freed_ports ≡ versioned_host.status.freed_ports)
unfolding Dict.lookup
export-new_hypervisor_from_v1alpha1_example =
    export-new_hypervisor_from_v1alpha1 codecs.encode_hypervisor codecs.sha1_hex versioned_host []
      imported_host refl host_imported

export-new_hypervisor_from_v1alpha1_known_example :
    let w = HypervisorVersions.export codecs.encode_hypervisor codecs.sha1_hex pooled_host in
    (w.spec.local_cri_endpoint ≡ export_local pooled)
    × (w.spec.remote_cri_endpoint ≡ export_remote pooled)
unfolding Dict.lookup
export-new_hypervisor_from_v1alpha1_known_example =
    export-new_hypervisor_from_v1alpha1_known codecs.encode_hypervisor codecs.sha1_hex
      versioned_host (("host-a", pooled) ∷ []) pooled pooled_host refl pooled_imported

component_imported :
    new_component_from_v1alpha1 codecs.json_marshal codecs.sha1_hex codecs.sort_strings
      versioned_component
    ≡ ok imported_component
unfolding new_component_from_v1alpha1 Versioned.export Versioned.refresh_cached_specs
    Versioned.json_specs
component_imported = refl

abbrev with_port : Component
with_port = record component_a { allocated_host_ports = ("apiserver", 30000) ∷ [] }

import_ports-export_example :
    Dict.lookup "apiserver" (
      import_ports []
        (Versioned.export codecs.json_marshal codecs.sha1_hex codecs.sort_strings
          with_port).status.allocated_host_ports)
    ≡ Dict.lookup "apiserver" with_port.allocated_host_ports
import_ports-export_example =
    import_ports-export codecs.json_marshal codecs.sha1_hex codecs.sort_strings (λ x l. refl)
      with_port "apiserver"

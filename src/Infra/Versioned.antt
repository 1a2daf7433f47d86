-- ===== src/Infra/Versioned.antt =====
-- The versioned hypervisor of apis/infra/v1alpha1/hypervisor_types.go and its conversions:
-- internal/pkg/infra/hypervisor.go, hypervisor_endpoint.go, hypervisor_connection_pool.go,
-- port_allocation.go and file_map.go. The YAML encoder, which may fail, and the SHA-1 sum are not
-- in the repository: they are parameters. A nil map and an empty one have the same entries: the
-- connection pool and the exported files are maps without the difference.
pub mod Laws
use oneinfra.Infra.Hypervisor.{
  local_endpoint, remote_endpoint, FileMap, HypervisorEndpoint, Certificate,
  HypervisorPortAllocationList, Hypervisor, NamespacedClusterFileMap,
}
use oneinfra.Base.{ℕ, String, Bool, not, Option, none, some, List, [], ◌∷◌, ◌==◌}
use oneinfra.Base.Errors.{◌>>=◌, ok, errorf, err, Result, Error}
use oneinfra.Dict
use oneinfra.Dict.{Dict}

pub record RemoteHypervisorCriEndpoint : Type 0 where
  pub cri_endpoint : String
  pub ca_certificate : String
  pub client_certificate : Option Certificate

pub record HypervisorSpec : Type 0 where
  pub local_cri_endpoint : Option String
  pub remote_cri_endpoint : Option RemoteHypervisorCriEndpoint
  pub public : Bool
  pub ip_address : String
  pub low : ℕ
  pub high : ℕ

pub record HypervisorStatus : Type 0 where
  pub allocated_ports : HypervisorPortAllocationList
  pub freed_ports : List ℕ
  pub files : Option NamespacedClusterFileMap

pub record VersionedHypervisor : Type 0 where
  pub name : String
  pub resource_version : String
  pub labels : Dict String
  pub annotations : Dict String
  pub spec : HypervisorSpec
  pub status : HypervisorStatus

abbrev pub HypervisorConnectionPool : Type 0
HypervisorConnectionPool = Dict HypervisorEndpoint

abbrev pub connect :
    Option HypervisorEndpoint
    → HypervisorConnectionPool
    → String
    → HypervisorEndpoint
    → HypervisorConnectionPool × HypervisorEndpoint
connect none pool name endpoint = (Dict.insert name endpoint pool, endpoint)
connect (some known) pool name endpoint = (pool, known)

-- HypervisorConnectionPool.connection: a name that is known keeps its first endpoint.
unfoldable pub connection :
    HypervisorConnectionPool
    → String
    → HypervisorEndpoint
    → HypervisorConnectionPool × HypervisorEndpoint
connection pool name endpoint = connect (Dict.lookup name pool) pool name endpoint

abbrev pub copy_certificate : Option Certificate → Option Certificate
copy_certificate none = none
copy_certificate (some c) =
    some (record { certificate = c.certificate; private_key = c.private_key })

abbrev pub remote_of : RemoteHypervisorCriEndpoint → HypervisorEndpoint
remote_of remote =
    remote_endpoint remote.cri_endpoint
      (record { certificate = remote.ca_certificate; private_key = "" })
      (copy_certificate remote.client_certificate)

unfoldable pub endpoint_from_v1alpha1 :
    String → Option String → Option RemoteHypervisorCriEndpoint → Result HypervisorEndpoint
endpoint_from_v1alpha1 name (some l) (some r) = err (
    errorf "hypervisor %q has both a local and a remote CRI endpoint, can only have one"
      (name ∷ []))
endpoint_from_v1alpha1 name (some l) none = ok (local_endpoint l)
endpoint_from_v1alpha1 name none (some r) = ok (remote_of r)
endpoint_from_v1alpha1 name none none =
    err (errorf "hypervisor %q is missing a local or a remote CRI endpoint" (name ∷ []))

unfoldable pub export_local : HypervisorEndpoint → Option String
export_local (local_endpoint l) = some l
export_local (remote_endpoint u a c) = none

unfoldable pub export_remote : HypervisorEndpoint → Option RemoteHypervisorCriEndpoint
export_remote (local_endpoint l) = none
export_remote (remote_endpoint u a c) = some (record {
  cri_endpoint = u;
  ca_certificate = a.certificate;
  client_certificate = copy_certificate c;
})

-- NewHypervisorPortAllocationListFromv1alpha1, and Export of the list: both copy field by field.
unfoldable pub copy_allocations : HypervisorPortAllocationList → HypervisorPortAllocationList
copy_allocations [] = []
copy_allocations (a ∷ l) =
    record {
      cluster_namespace = a.cluster_namespace;
      cluster = a.cluster;
      component = a.component;
      port = a.port;
    }
    ∷ copy_allocations l

unfoldable pub copy_files : FileMap → FileMap → FileMap
copy_files res [] = res
copy_files res ((name, sum) ∷ files) = copy_files (Dict.insert name sum res) files

abbrev pub or_empty : {V : Type 0} → Option (Dict V) → Dict V
or_empty none = []
or_empty (some m) = m

-- The three outer loops: the entry of the result is made where it is missing, then filled.
unfoldable pub copy_entries :
    {V : Type 0} → (Dict V → Dict V → Dict V) → Dict (Dict V) → Dict (Dict V) → Dict (Dict V)
copy_entries fill res [] = res
copy_entries fill res ((name, entries) ∷ rest) =
    copy_entries fill (Dict.insert name (fill (or_empty (Dict.lookup name res)) entries) res) rest

unfoldable pub copy_namespaced_files : NamespacedClusterFileMap → NamespacedClusterFileMap
unfolding copy_files copy_entries
copy_namespaced_files = copy_entries (copy_entries (copy_entries copy_files)) []

module _ (encode : VersionedHypervisor → Option String) (sha1_hex : String → String) where
  unfoldable pub export : Hypervisor → VersionedHypervisor
  unfolding copy_allocations copy_namespaced_files export_local export_remote
  export hypervisor = record {
    name = hypervisor.name;
    resource_version = hypervisor.resource_version;
    labels = hypervisor.labels;
    annotations = hypervisor.annotations;
    spec = record {
      local_cri_endpoint = export_local hypervisor.endpoint;
      remote_cri_endpoint = export_remote hypervisor.endpoint;
      public = hypervisor.public;
      ip_address = hypervisor.ip_address;
      low = hypervisor.port_range_low;
      high = hypervisor.port_range_high;
    };
    status = record {
      allocated_ports = copy_allocations hypervisor.allocated_ports;
      freed_ports = hypervisor.freed_ports;
      files = some (copy_namespaced_files (or_empty hypervisor.files));
    };
  }

  unfoldable pub specs : Hypervisor → Result String
  specs hypervisor = elim (encode (export hypervisor)) [
    | none ↦ err (errorf "could not encode hypervisor %q" (hypervisor.name ∷ []))
    | some text ↦ ok text
  ]

  unfoldable pub refresh_cached_specs : Hypervisor → Result Hypervisor
  refresh_cached_specs hypervisor = do
    text ← specs hypervisor
    ok (record hypervisor { loaded_contents_hash = sha1_hex text })

  unfoldable pub is_dirty : Hypervisor → Result Bool
  is_dirty hypervisor = do
    text ← specs hypervisor
    ok (not (hypervisor.loaded_contents_hash == sha1_hex text))

  -- `res` of NewHypervisorFromv1alpha1, once its endpoint is known.
  unfoldable pub imported : VersionedHypervisor → HypervisorEndpoint → Hypervisor
  unfolding copy_allocations copy_namespaced_files
  imported hypervisor endpoint = record {
    name = hypervisor.name;
    resource_version = hypervisor.resource_version;
    labels = hypervisor.labels;
    annotations = hypervisor.annotations;
    public = hypervisor.spec.public;
    ip_address = hypervisor.spec.ip_address;
    files = some (copy_namespaced_files (or_empty hypervisor.status.files));
    endpoint = endpoint;
    port_range_low = hypervisor.spec.low;
    port_range_high = hypervisor.spec.high;
    freed_ports = hypervisor.status.freed_ports;
    allocated_ports = copy_allocations hypervisor.status.allocated_ports;
    loaded_contents_hash = "";
  }

  -- The pool also changes where the encoder then fails.
  abbrev pub import_connected :
      VersionedHypervisor
      → HypervisorConnectionPool × HypervisorEndpoint
      → Result Hypervisor × HypervisorConnectionPool
  import_connected hypervisor (pool, endpoint) =
      (refresh_cached_specs (imported hypervisor endpoint), pool)

  abbrev pub import_endpoint :
      VersionedHypervisor
      → HypervisorConnectionPool
      → Result HypervisorEndpoint
      → Result Hypervisor × HypervisorConnectionPool
  import_endpoint hypervisor pool (err e) = (err e, pool)
  import_endpoint hypervisor pool (ok endpoint) =
      import_connected hypervisor (connection pool hypervisor.name endpoint)

  unfoldable pub new_hypervisor_from_v1alpha1 :
      VersionedHypervisor → HypervisorConnectionPool → Result Hypervisor × HypervisorConnectionPool
  unfolding connection endpoint_from_v1alpha1 imported refresh_cached_specs
  new_hypervisor_from_v1alpha1 hypervisor pool = import_endpoint hypervisor pool (
      endpoint_from_v1alpha1 hypervisor.name hypervisor.spec.local_cri_endpoint
        hypervisor.spec.remote_cri_endpoint)

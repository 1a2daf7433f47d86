-- ===== src/Component/Versioned.antt =====
-- The versioned component of apis/cluster/v1alpha1/component_types.go, and the conversions of
-- internal/pkg/component/component.go. Not in the repository, and so parameters: the JSON encoder,
-- which may fail, the SHA-1 sum as hexadecimal text, and `sort.Strings`.
pub mod Laws
use oneinfra.Base.{ℕ, String, Bool, not, Option, none, some, List, [], ◌∷◌, ◌==◌, if◌then◌else◌}
use oneinfra.Base.Errors.{Error, Result, ok, err, ◌>>=◌}
use oneinfra.Conditions.{ConditionList}
use oneinfra.Dict
use oneinfra.Dict.{Dict}
use oneinfra.Infra.Hypervisor.{Certificate}
use oneinfra.Component.{Component, control_plane_role, control_plane_ingress_role}

pub record ComponentHostPortAllocation : Type 0 where
  pub name : String
  pub port : ℕ

pub record ComponentSpec : Type 0 where
  pub hypervisor : String
  pub cluster : String
  pub role : String

pub record ComponentStatus : Type 0 where
  pub allocated_host_ports : List ComponentHostPortAllocation
  pub client_certificates : Dict Certificate
  pub server_certificates : Dict Certificate
  pub input_endpoints : Dict String
  pub output_endpoints : Dict String
  pub conditions : ConditionList

pub record VersionedComponent : Type 0 where
  pub name : String
  pub generate_name : String
  pub namespace : String
  pub resource_version : String
  pub labels : Dict String
  pub annotations : Dict String
  pub finalizers : List String
  pub deletion_timestamp : Option ℕ
  pub spec : ComponentSpec
  pub status : ComponentStatus

-- The switch on the role: a role that is neither stays empty.
unfoldable pub convert_role : String → String
convert_role role =
    if role == control_plane_role
    then control_plane_role
    else if role == control_plane_ingress_role
    then control_plane_ingress_role
    else ""

unfoldable pub import_ports : Dict ℕ → List ComponentHostPortAllocation → Dict ℕ
import_ports res [] = res
import_ports res (host_port ∷ list) =
    import_ports (Dict.insert host_port.name host_port.port res) list

-- NewCertificateFromv1alpha1 and Export of a certificate copy its two texts.
unfoldable pub copy_certificates : Dict Certificate → Dict Certificate → Dict Certificate
copy_certificates res [] = res
copy_certificates res ((name, certificate) ∷ rest) =
    copy_certificates
      (Dict.insert name
        (record { certificate = certificate.certificate; private_key = certificate.private_key })
        res)
      rest

abbrev pub names : {V : Type 0} → Dict V → List String
names [] = []
names ((name, v) ∷ m) = name ∷ names m

-- m[k], which is 0 for a missing key
abbrev pub port_of : Dict ℕ → String → ℕ
port_of m k = elim (Dict.lookup k m) [ none ↦ 0 | some p ↦ p ]

unfoldable pub export_ports : Dict ℕ → List String → List ComponentHostPortAllocation
export_ports m [] = []
export_ports m (name ∷ list) = record { name = name; port = port_of m name } ∷ export_ports m list

module _ (json_marshal : VersionedComponent → Result String) (sha1_hex : String → String)
    (sort_strings : List String → List String) where
  unfoldable pub export : Component → VersionedComponent
  unfolding export_ports copy_certificates convert_role
  export component = record {
    name = component.name;
    generate_name = component.generate_name;
    namespace = component.namespace;
    resource_version = component.resource_version;
    labels = component.labels;
    annotations = component.annotations;
    finalizers = component.finalizers;
    deletion_timestamp = component.deletion_timestamp;
    spec = record {
      hypervisor = component.hypervisor_name;
      cluster = component.cluster_name;
      role = convert_role component.role;
    };
    status = record {
      allocated_host_ports =
          export_ports component.allocated_host_ports
            (sort_strings (names component.allocated_host_ports));
      client_certificates = copy_certificates [] component.client_certificates;
      server_certificates = copy_certificates [] component.server_certificates;
      input_endpoints = component.input_endpoints;
      output_endpoints = component.output_endpoints;
      conditions = component.conditions;
    };
  }

  -- The conditions are no part of the encoded text.
  unfoldable pub json_specs : Component → Result String
  json_specs component =
      let object : VersionedComponent = export component in
      json_marshal (record object { status = record object.status { conditions = [] } })

  unfoldable pub refresh_cached_specs : Component → Result Component
  refresh_cached_specs component = do
    specs ← json_specs component
    ok (record component { loaded_contents_hash = sha1_hex specs })

  unfoldable pub is_dirty : Component → Result Bool
  is_dirty component = do
    specs ← json_specs component
    ok (not (component.loaded_contents_hash == sha1_hex specs))

  unfoldable pub new_component_from_v1alpha1 : VersionedComponent → Result Component
  unfolding import_ports copy_certificates convert_role
  new_component_from_v1alpha1 component = refresh_cached_specs (record {
    name = component.name;
    generate_name = component.generate_name;
    namespace = component.namespace;
    resource_version = component.resource_version;
    labels = component.labels;
    annotations = component.annotations;
    finalizers = component.finalizers;
    deletion_timestamp = component.deletion_timestamp;
    role = convert_role component.spec.role;
    hypervisor_name = component.spec.hypervisor;
    cluster_name = component.spec.cluster;
    allocated_host_ports = import_ports [] component.status.allocated_host_ports;
    client_certificates = copy_certificates [] component.status.client_certificates;
    server_certificates = copy_certificates [] component.status.server_certificates;
    input_endpoints = component.status.input_endpoints;
    output_endpoints = component.status.output_endpoints;
    conditions = component.status.conditions;
    loaded_contents_hash = "";
  })

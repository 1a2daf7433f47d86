-- ===== src/Component.antt =====
-- internal/pkg/component/component.go: a control plane or ingress component, and the host ports
-- that it requests from its hypervisor. A role is a text, as in the source; the parsed forms of
-- certificates are left out.
pub mod Names
pub mod HostPorts
pub mod Sharing
pub mod Versioned
pub mod Listing
use oneinfra.Base.{ℕ, ◌-◌, String, not, Option, none, some, List, [], ◌∷◌, concat}
use oneinfra.Base.Errors.{Error, Result, ok, err}
use oneinfra.Conditions.{ConditionList}
use oneinfra.Dict
use oneinfra.Dict.{Dict}
use oneinfra.Infra.Hypervisor.{Certificate, Hypervisor}
use oneinfra.Infra.Ports
use oneinfra.Base.Errors.{wrap}

abbrev pub control_plane_role : String
control_plane_role = "control-plane"

abbrev pub control_plane_ingress_role : String
control_plane_ingress_role = "control-plane-ingress"

abbrev pub reconcile_started : String
reconcile_started = "ReconcileStarted"

abbrev pub reconcile_succeeded : String
reconcile_succeeded = "ReconcileSucceeded"

-- `deletion_timestamp` is `none` for a nil pointer.
pub record Component : Type 0 where
  pub name : String
  pub generate_name : String
  pub namespace : String
  pub resource_version : String
  pub labels : Dict String
  pub annotations : Dict String
  pub finalizers : List String
  pub deletion_timestamp : Option ℕ
  pub role : String
  pub hypervisor_name : String
  pub cluster_name : String
  pub allocated_host_ports : Dict ℕ
  pub client_certificates : Dict Certificate
  pub server_certificates : Dict Certificate
  pub input_endpoints : Dict String
  pub output_endpoints : Dict String
  pub conditions : ConditionList
  pub loaded_contents_hash : String

unfoldable pub new_component : String → String → String → String → Component
new_component cluster_namespace cluster_name component_generate_name role = record {
  name = "";
  generate_name = component_generate_name;
  namespace = cluster_namespace;
  resource_version = "";
  labels = [];
  annotations = [];
  finalizers = [];
  deletion_timestamp = none;
  role = role;
  hypervisor_name = "";
  cluster_name = cluster_name;
  allocated_host_ports = [];
  client_certificates = [];
  server_certificates = [];
  input_endpoints = [];
  output_endpoints = [];
  conditions = [];
  loaded_contents_hash = "";
}

-- fmt.Sprintf("%s-%s", component.Name, subcomponentName)
unfoldable pub with_subcomponent_name : Component → String → String
with_subcomponent_name component subcomponent_name =
    concat component.name (concat "-" subcomponent_name)

abbrev pub record_port :
    Component → String → Hypervisor × Result ℕ → (Component × Hypervisor) × Result ℕ
record_port component name (hypervisor, ok port) = (
  (
    record component {
      allocated_host_ports = Dict.insert name port component.allocated_host_ports;
    },
    hypervisor,
  ),
  ok port,
)
record_port component name (hypervisor, err e) = ((component, hypervisor), err e)

abbrev pub request_missing_port :
    Option ℕ → Component → Hypervisor → String → (Component × Hypervisor) × Result ℕ
request_missing_port (some allocated_port) component hypervisor name =
    ((component, hypervisor), ok allocated_port)
request_missing_port none component hypervisor name = record_port component name (
    Ports.request_port hypervisor component.namespace component.cluster_name
      (with_subcomponent_name component name))

-- RequestPort changes both the component and the hypervisor.
unfoldable pub request_port : Component → Hypervisor → String → (Component × Hypervisor) × Result ℕ
request_port component hypervisor name =
    request_missing_port (Dict.lookup name component.allocated_host_ports) component hypervisor name

abbrev pub forget_port :
    Component → String → Hypervisor × Option Error → (Component × Hypervisor) × Option Error
forget_port component name (hypervisor, none) = (
  (
    record component { allocated_host_ports = Dict.delete name component.allocated_host_ports },
    hypervisor,
  ),
  none,
)
forget_port component name (hypervisor, some e) = (
  (component, hypervisor),
  some (wrap e "could not free port %q on hypervisor %q" (name ∷ hypervisor.name ∷ [])),
)

abbrev pub free_known_port :
    Option ℕ → Component → Hypervisor → String → (Component × Hypervisor) × Option Error
free_known_port none component hypervisor name = ((component, hypervisor), none)
free_known_port (some _) component hypervisor name = forget_port component name (
    Ports.free_port hypervisor component.namespace component.cluster_name
      (with_subcomponent_name component name))

unfoldable pub free_port : Component → Hypervisor → String → (Component × Hypervisor) × Option Error
free_port component hypervisor name =
    free_known_port (Dict.lookup name component.allocated_host_ports) component hypervisor name

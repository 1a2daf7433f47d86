-- ===== src/Components.antt =====
-- internal/pkg/reconciler/inquirer.go, and what the kinds of components of
-- internal/pkg/component/components share: they find each other and their hypervisors through the
-- inquirer, and all work on the same objects. So the components and the hypervisors stand in a
-- store, and a component that is changed is written back under its namespace and name.
pub mod World
pub mod Etcd
pub mod Store
pub mod Paths
pub mod Ports
pub mod Leaving
pub mod FileMap
use oneinfra.Base.{ℕ, String, Bool, ◌&&◌, Option, none, some, [], ◌∷◌, ◌==◌, if◌then◌else◌}
use oneinfra.Base.Errors.{ok, errorf, err, Error, Exec, Result}
use oneinfra.Base.Actions.{pure, ◌>>=◌, raise}
use oneinfra.Dict
use oneinfra.Dict.{Dict}
use oneinfra.Component.{Component, request_port, free_port}
use oneinfra.Component.Listing.{ComponentList, with_role, with_cluster}
use oneinfra.Infra.Hypervisor.{Hypervisor}
use oneinfra.Infra.Listing.{HypervisorMap}

-- `world` is all that the components reach beyond the store.
pub record Stage (W : Type 0) : Type 0 where
  pub components : ComponentList
  pub hypervisors : HypervisorMap
  pub world : W

-- Which component is in reconciliation, and its cluster.
pub record Inquirer : Type 0 where
  pub namespace : String
  pub name : String
  pub cluster_namespace : String
  pub cluster_name : String

abbrev pub is_component : String → String → Component → Bool
is_component namespace name component =
    (component.namespace == namespace) && (component.name == name)

unfoldable pub find_component : String → String → ComponentList → Option Component
find_component namespace name [] = none
find_component namespace name (component ∷ components) =
    if is_component namespace name component
    then some component
    else find_component namespace name components

unfoldable pub put_component : Component → ComponentList → ComponentList
put_component changed [] = []
put_component changed (component ∷ components) =
    if is_component changed.namespace changed.name component
    then changed ∷ components
    else component ∷ put_component changed components

-- What a method called on a nil pointer does: the program panics.
abbrev pub nil_dereference : Error
nil_dereference = errorf "invalid memory address or nil pointer dereference" []

abbrev pub or_panic : {A : Type 0} → Option A → Result A
or_panic none = err nil_dereference
or_panic (some a) = ok a

module _ {W : Type 0} where
  abbrev pub after_world : {A : Type 0} → Stage W → Result A × W → Result A × Stage W
  after_world stage (r, w) = (r, record stage { world = w })

  -- A call that leaves the store alone.
  abbrev pub beyond : {A : Type 0} → Exec W A → Exec (Stage W) A
  beyond op stage = after_world stage (op stage.world)

  -- Inquirer.ComponentHypervisor
  unfoldable pub component_hypervisor : Component → Stage W → Option Hypervisor
  component_hypervisor component stage = Dict.lookup component.hypervisor_name stage.hypervisors

  abbrev pub write_back : Stage W → Component → Hypervisor → Stage W
  write_back stage component hypervisor = record stage {
    components = put_component component stage.components;
    hypervisors = Dict.insert component.hypervisor_name hypervisor stage.hypervisors;
  }

  abbrev pub written :
      {A : Type 0} → Stage W → (Component × Hypervisor) × Result A → Result A × Stage W
  written stage ((component, hypervisor), r) = (r, write_back stage component hypervisor)

  -- component.RequestPort(hypervisor, name)
  unfoldable pub request_port_of : Component → Hypervisor → String → Exec (Stage W) ℕ
  unfolding put_component
  request_port_of component hypervisor name stage =
      written stage (request_port component hypervisor name)

  -- component.RequestPort(hypervisor, name), where the hypervisor may be nil: a port that is recorded
  -- is returned all the same, and a request for another one panics.
  abbrev pub request_port_at : Component → String → Option Hypervisor → Exec (Stage W) ℕ
  request_port_at component name none stage =
      (or_panic (Dict.lookup name component.allocated_host_ports), stage)
  request_port_at component name (some hypervisor) stage =
      request_port_of component hypervisor name stage

  module _ (inquirer : Inquirer) where
    -- Inquirer.Component
    unfoldable pub current_component : Exec (Stage W) Component
    unfolding find_component
    current_component stage =
        (or_panic (find_component inquirer.namespace inquirer.name stage.components), stage)

    -- Inquirer.Hypervisor, where a method is called on it.
    unfoldable pub current_hypervisor : Component → Exec (Stage W) Hypervisor
    unfolding component_hypervisor
    current_hypervisor component stage = (or_panic (component_hypervisor component stage), stage)

    -- Inquirer.ClusterComponents
    unfoldable pub cluster_components : String → Stage W → ComponentList
    cluster_components role stage =
        with_role (with_cluster stage.components inquirer.cluster_namespace inquirer.cluster_name)
          role

    -- inquirer.Component().RequestPort(inquirer.Hypervisor(), name)
    unfoldable pub request_own_port : String → Exec (Stage W) ℕ
    unfolding current_component component_hypervisor request_port_of
    request_own_port name = do
      component ← current_component
      λ stage. request_port_at component name (component_hypervisor component stage) stage

    -- The same, and then the address of the hypervisor: without a hypervisor this panics in the
    -- request or at the address, and has changed nothing.
    unfoldable pub request_own_address : String → Exec (Stage W) (String × ℕ)
    unfolding current_component current_hypervisor request_port_of
    request_own_address name = do
      component ← current_component
      hypervisor ← current_hypervisor component
      port ← request_port_of component hypervisor name
      pure (hypervisor.ip_address, port)

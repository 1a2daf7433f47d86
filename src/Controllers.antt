-- ===== src/Controllers.antt =====
-- What the controllers of controllers/ share: the results and requests of controller-runtime, the
-- operations of the API client that they call, and listHypervisors of controllers/listing.go. The API
-- server is not in the repository: its state is a type `W`, and the client's operations are the
-- fields of a record that the controllers take as a parameter.
pub mod Scheduler
pub mod Clusters
use oneinfra.Infra.Hypervisor.{Hypervisor}
use oneinfra.Component.{Component}
use oneinfra.Infra.Listing.{HypervisorMap}
use oneinfra.Base.{ℕ, String, Bool, true, false, Option, List, [], ◌∷◌}
use oneinfra.Base.Errors.{err, ok, Result, Error, ◌>>=◌}
use oneinfra.Dict
use oneinfra.Infra.Versioned.{
  HypervisorConnectionPool, new_hypervisor_from_v1alpha1, VersionedHypervisor,
}
use oneinfra.Component.Versioned
use oneinfra.Component.Versioned.{new_component_from_v1alpha1, VersionedComponent}

-- ctrl.Result, with the time to wait in seconds.
pub record CtrlResult : Type 0 where
  pub requeue : Bool
  pub requeue_after : ℕ

abbrev pub no_requeue : CtrlResult
no_requeue = record { requeue = false; requeue_after = 0 }

abbrev pub requeue_now : CtrlResult
requeue_now = record { requeue = true; requeue_after = 0 }

abbrev pub requeue_in : ℕ → CtrlResult
requeue_in seconds = record { requeue = false; requeue_after = seconds }

pub record CtrlRequest : Type 0 where
  pub namespace : String
  pub name : String

-- An update, a creation or a deletion may fail, and may change the server all the same.
pub record Client (W : Type 0) : Type 0 where
  pub list_hypervisors : W → Result (List VersionedHypervisor)
  pub list_components : W → Result (List VersionedComponent)
  pub update_component : VersionedComponent → W → W × Option Error
  pub create_component : VersionedComponent → W → W × Option Error
  pub delete_component : VersionedComponent → W → W × Option Error

-- The codecs that are not in the repository.
pub record Codecs : Type 0 where
  pub encode_hypervisor : VersionedHypervisor → Option String
  pub json_marshal : VersionedComponent → Result String
  pub sha1_hex : String → String
  pub sort_strings : List String → List String

abbrev pub to_component : Codecs → VersionedComponent → Result Component
to_component codecs =
    new_component_from_v1alpha1 codecs.json_marshal codecs.sha1_hex codecs.sort_strings

abbrev pub from_component : Codecs → Component → VersionedComponent
from_component codecs = Versioned.export codecs.json_marshal codecs.sha1_hex codecs.sort_strings

abbrev pub add_hypervisor : HypervisorMap → Result Hypervisor → HypervisorMap
add_hypervisor res (ok hypervisor) = Dict.insert hypervisor.name hypervisor res
add_hypervisor res (err e) = res

-- The loop of listHypervisors, with the connection pool that the conversions share.
unfoldable pub hypervisors_loop :
    Codecs
    → HypervisorConnectionPool
    → HypervisorMap
    → List VersionedHypervisor
    → HypervisorMap × HypervisorConnectionPool
hypervisors_loop codecs pool res [] = (res, pool)
hypervisors_loop codecs pool res (hypervisor ∷ items) =
    let (converted, pool') =
      new_hypervisor_from_v1alpha1 codecs.encode_hypervisor codecs.sha1_hex hypervisor pool in
    hypervisors_loop codecs pool' (add_hypervisor res converted) items

-- The same loop with a nil pool: each conversion then makes a pool of its own.
unfoldable pub hypervisors_loop_unpooled :
    Codecs → HypervisorMap → List VersionedHypervisor → HypervisorMap
hypervisors_loop_unpooled codecs res [] = res
hypervisors_loop_unpooled codecs res (hypervisor ∷ items) =
    hypervisors_loop_unpooled codecs
      (add_hypervisor res
        (new_hypervisor_from_v1alpha1 codecs.encode_hypervisor codecs.sha1_hex hypervisor []).0)
      items

module _ {W : Type 0} (client : Client W) (codecs : Codecs) where
  -- listHypervisors with a connection pool, and with nil.
  unfoldable pub list_hypervisors :
      HypervisorConnectionPool → W → Result (HypervisorMap × HypervisorConnectionPool)
  unfolding hypervisors_loop
  list_hypervisors pool w = do
    items ← client.list_hypervisors w
    ok (hypervisors_loop codecs pool [] items)

  unfoldable pub list_hypervisors_unpooled : W → Result HypervisorMap
  unfolding hypervisors_loop_unpooled
  list_hypervisors_unpooled w = do
    items ← client.list_hypervisors w
    ok (hypervisors_loop_unpooled codecs [] items)

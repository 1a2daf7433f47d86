-- ===== src/Controllers/Scheduler.antt =====
-- controllers/component_scheduler.go: which hypervisor a component gets. `draws i` is `rand.Intn`
-- as the i-th unscheduled component meets it.
pub mod Choice
pub mod Written
pub mod Laws
use oneinfra.Component.{Component, control_plane_ingress_role, control_plane_role}
use oneinfra.Infra.Listing.{public_list, sample_hypervisor, private_list, HypervisorList}
use oneinfra.Controllers.{
  from_component, requeue_in, HypervisorMap, Hypervisor, list_hypervisors_unpooled, requeue_now,
  to_component, no_requeue, CtrlRequest, Codecs, CtrlResult, Client,
}
use oneinfra.Component.Versioned.{VersionedComponent}
use oneinfra.Base.{ℕ, suc, String, ◌&&◌, Option, none, some, List, [], ◌∷◌, ◌==◌, if◌then◌else◌}
use oneinfra.Base.Errors.{ok, err, Result, Error}

-- The first loop of Reconcile: the components that name no hypervisor.
unfoldable pub unscheduled : List VersionedComponent → List VersionedComponent
unscheduled [] = []
unscheduled (component ∷ items) =
    let rest = unscheduled items in
    if component.spec.hypervisor == "" then component ∷ rest else rest

-- The switch on the role: for another role the list stays what it was for the component before.
unfoldable pub choose_hypervisors :
    String → HypervisorList → HypervisorList → HypervisorList → HypervisorList
choose_hypervisors role privates publics current =
    if role == control_plane_role
    then privates
    else if role == control_plane_ingress_role
    then publics
    else current

-- The variables of the second loop, and the API server.
pub record Scheduling (W : Type 0) : Type 0 where
  pub world : W
  pub hypervisor_list : HypervisorList
  pub result : CtrlResult

module _ {W : Type 0} (client : Client W) (codecs : Codecs) (draws : ℕ → ℕ → ℕ)
    (request : CtrlRequest) where
  abbrev pub scheduled_on : Component → Hypervisor → VersionedComponent
  scheduled_on component hypervisor =
      from_component codecs (record component { hypervisor_name = hypervisor.name })

  abbrev pub after_update : W × Option Error → Scheduling W → Scheduling W
  after_update (world, none) s = record s { world = world }
  after_update (world, some e) s = record s { world = world; result = requeue_now }

  abbrev pub assign : Component → Result Hypervisor → Scheduling W → Scheduling W
  assign component (ok hypervisor) s =
      after_update (client.update_component (scheduled_on component hypervisor) s.world) s
  assign component (err e) s =
      if component.name == request.name && component.namespace == request.namespace
      then record s { result = requeue_in 10 }
      else s

  abbrev pub schedule_converted :
      HypervisorList → HypervisorList → ℕ → Result Component → Scheduling W → Scheduling W
  schedule_converted privates publics i (err e) s = s
  schedule_converted privates publics i (ok component) s =
      let hypervisors = choose_hypervisors component.role privates publics s.hypervisor_list in
      assign component (sample_hypervisor (draws i) hypervisors)
        (record s { hypervisor_list = hypervisors })

  unfoldable pub schedule_loop :
      HypervisorList → HypervisorList → ℕ → List VersionedComponent → Scheduling W → Scheduling W
  unfolding choose_hypervisors
  schedule_loop privates publics i [] s = s
  schedule_loop privates publics i (component ∷ rest) s =
      schedule_loop privates publics (suc i) rest
        (schedule_converted privates publics i (to_component codecs component) s)

  abbrev pub schedule_with :
      List VersionedComponent → Result HypervisorMap → W → W × CtrlResult × Option Error
  schedule_with components (err e) world = (world, requeue_in 10, some e)
  schedule_with components (ok hypervisor_map) world =
      let s =
        schedule_loop (private_list hypervisor_map) (public_list hypervisor_map) 0 components
          (record { world = world; hypervisor_list = []; result = no_requeue }) in
      (s.world, s.result, none)

  abbrev pub schedule_list : List VersionedComponent → W → W × CtrlResult × Option Error
  schedule_list [] world = (world, no_requeue, none)
  schedule_list (component ∷ rest) world =
      schedule_with (component ∷ rest) (list_hypervisors_unpooled client codecs world) world

  abbrev pub schedule_listed : Result (List VersionedComponent) → W → W × CtrlResult × Option Error
  schedule_listed (err e) world = (world, no_requeue, some e)
  schedule_listed (ok items) world = schedule_list (unscheduled items) world

  -- ComponentScheduler.Reconcile
  unfoldable pub reconcile : W → W × CtrlResult × Option Error
  unfolding schedule_loop unscheduled list_hypervisors_unpooled
  reconcile world = schedule_listed (client.list_components world) world

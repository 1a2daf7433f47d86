-- ===== src/Controllers/Scheduler/Laws.antt =====
-- Which assignments the scheduler makes.
use oneinfra.Controllers.Scheduler.{
  sample_hypervisor, assign, from_component, ok, schedule_converted, after_update, to_component,
  Component, Scheduling, Error, CtrlRequest, Codecs, VersionedComponent, Client, public_list,
  private_list, control_plane_role, HypervisorMap, Hypervisor, choose_hypervisors,
}
use oneinfra.Controllers.Scheduler.Written.{Reassigned, SortKeeps}
use oneinfra.Infra.Listing.{
  sample-All, DrawsBelow, All-private_list, Mem-private_list, list, HypervisorList,
}
use oneinfra.Base.{
  ℕ, ◌<◌, String, ◌≡◌, refl, ap, ◌∙◌, false, Option, none, some, List, eq_iff, length, All,
  All-both,
}
use mathlib.Core.List.{Mem}
use oneinfra.Controllers.Scheduler.Choice.{Suits}

module _ {W : Type 0} (client : Client W) (codecs : Codecs) (draws : ℕ → ℕ → ℕ)
    (request : CtrlRequest) where
  -- From one state of the API server to another by assignments alone: each writes back a component
  -- that was listed, and names no hypervisor, with one that suits it.
  pub data Assigns (components : List VersionedComponent) (all : HypervisorList)
      : W → W → Type 0 where
    done : {w : W} → Assigns components all w w
    assigns :
        {w w' : W} (v : VersionedComponent) (c : Component) (h : Hypervisor)
        → Assigns components all w w'
        → Mem v components
        → v.spec.hypervisor ≡ ""
        → to_component codecs v ≡ ok c
        → Suits all v.spec.role h
        → Reassigned v h.name (from_component codecs (record c { hypervisor_name = h.name }))
        → Assigns components all w
            (client.update_component
              (from_component codecs (record c { hypervisor_name = h.name }))
              w').0

  world-after_update :
      (u : W × Option Error) (s : Scheduling W)
      → (after_update client codecs draws request u s).world ≡ u.0
  world-after_update (w, none) s = refl
  world-after_update (w, some e) s = refl

  module _ (components : List VersionedComponent) (m : HypervisorMap) (w : W)
      (sorts : SortKeeps codecs) where
    -- What each round of the loop keeps.
    record Keeps (s : Scheduling W) : Type 0 where
      reached : Assigns components (list m) w s.world
      listed : All (λ h. Mem h (list m)) s.hypervisor_list

module _ {W : Type 0} (client : Client W) (codecs : Codecs) (draws : ℕ → ℕ → ℕ)
    (request : CtrlRequest) where
  choose_control_plane :
      (role : String) (privates publics current : HypervisorList)
      → role ≡ control_plane_role
      → choose_hypervisors role privates publics current ≡ privates
  unfolding choose_hypervisors
  choose_control_plane role privates publics current e =
      rw ((eq_iff role control_plane_role).1 e) refl

  -- Where there is a private hypervisor in the map, and rand.Intn draws below its bound, one round
  -- of the loop writes back a control plane component with the name of a private hypervisor of the
  -- map, the one that is drawn from the private ones.
  pub schedule_converted-control_plane :
      (m : HypervisorMap) (i : ℕ) (c : Component) (s : Scheduling W)
      → DrawsBelow (draws i)
      → c.role ≡ control_plane_role
      → 0 < length (private_list m)
      → (h : Hypervisor) × Mem h (list m)
        × (h.public ≡ false)
        × (sample_hypervisor (draws i) (private_list m) ≡ ok h)
        × ((schedule_converted client codecs draws request
              (private_list m)
              (public_list m)
              i
              (ok c)
              s).world
            ≡ (client.update_component
                (from_component codecs (record c { hypervisor_name = h.name }))
                s.world).0)
  schedule_converted-control_plane m i c s below role some_private =
      let (h, e, p) =
        sample-All (λ h. Mem h (list m) × (h.public ≡ false)) (draws i) "no hypervisors available"
          (private_list m) below some_private
          (All-both _ _ _ (Mem-private_list m) (All-private_list m)) in
      (
        h,
        p.0,
        p.1,
        e,
        ap
              (λ l.
                (assign client codecs draws request c (sample_hypervisor (draws i) l)
                  (record s { hypervisor_list = l })).world)
              (choose_control_plane c.role _ _ s.hypervisor_list role)
            ∙ (ap
                  (λ r.
                    (assign client codecs draws request c r
                      (record s { hypervisor_list = private_list m })).world)
                  e
                ∙ world-after_update client codecs draws request _
                    (record s { hypervisor_list = private_list m })),
      )

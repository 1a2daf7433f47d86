-- ===== src/Controllers/Scheduler/Choice.antt =====
-- The lists from which controllers/component_scheduler.go draws a hypervisor.
use oneinfra.Controllers.Scheduler.{
  public_list, private_list, control_plane_ingress_role, control_plane_role, HypervisorMap,
  Hypervisor, choose_hypervisors,
}
use oneinfra.Infra.Listing.{
  All-public_list, Mem-public_list, All-private_list, Mem-private_list, list, HypervisorList,
}
use oneinfra.Base.{
  String, ◌≡◌, sym, ◌∙◌, ◌≢◌, inl, inr, true, false, arith, ◌==◌, eq_iff, Bool-cases, All, All-mono,
  All-both,
}
use mathlib.Core.List.{Mem}

-- What the hypervisor of a component of a role is like: private under a control plane, public
-- under its ingress, and one of the hypervisors that were listed in any case.
pub record Suits (all : HypervisorList) (role : String) (h : Hypervisor) : Type 0 where
  pub listed : Mem h all
  pub private_if_control_plane : role ≡ control_plane_role → h.public ≡ false
  pub public_if_ingress : role ≡ control_plane_ingress_role → h.public ≡ true

roles_differ : control_plane_role ≢ control_plane_ingress_role
roles_differ e = ground (arith, eq_iff control_plane_role control_plane_ingress_role)

not_equal : (s t : String) → (s == t) ≡ false → s ≢ t
not_equal s t e i = ground (arith, eq_iff s t)

pub All-choose_hypervisors :
    (m : HypervisorMap) (role : String) (current : HypervisorList)
    → All (λ h. Mem h (list m)) current
    → All (Suits (list m) role) (choose_hypervisors role (private_list m) (public_list m) current)
unfolding choose_hypervisors
All-choose_hypervisors m role current h = elim (Bool-cases (role == control_plane_role)) [
  | inl e ↦ rw e (
      All-mono (λ x. Mem x (list m) × (x.public ≡ false)) (Suits (list m) role) (private_list m)
        (λ x p. record {
          listed = p.0;
          private_if_control_plane = λ _. p.1;
          public_if_ingress = λ i. absurd (roles_differ (sym ((eq_iff role _).0 e) ∙ i));
        })
        (All-both _ _ _ (Mem-private_list m) (All-private_list m)))
  | inr e ↦ rw e (elim (Bool-cases (role == control_plane_ingress_role)) [
    | inl f ↦ rw f (
        All-mono (λ x. Mem x (list m) × (x.public ≡ true)) (Suits (list m) role) (public_list m)
          (λ x p. record {
            listed = p.0;
            private_if_control_plane = λ i. absurd (not_equal role _ e i);
            public_if_ingress = λ _. p.1;
          })
          (All-both _ _ _ (Mem-public_list m) (All-public_list m)))
    | inr f ↦ rw f (
        All-mono (λ x. Mem x (list m)) (Suits (list m) role) current
          (λ x p. record {
            listed = p;
            private_if_control_plane = λ i. absurd (not_equal role _ e i);
            public_if_ingress = λ i. absurd (not_equal role _ f i);
          })
          h)
  ])
]

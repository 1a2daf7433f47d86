-- ===== src/Reconciler/Components/Cycle.antt =====
-- The three entry points of the component reconciler.
use oneinfra.Dict
use oneinfra.Reconciler.{full_cluster_name, is_cluster_error_free}
use oneinfra.Conditions.Setting.{is_condition-set_condition_self}
use oneinfra.Conditions.{condition_false, condition_true, is_condition}
use oneinfra.Utils.Laws.{contains-remove_elements_from_list, contains}
use oneinfra.Reconciler.Components.Laws.{
  loop-Tells, errors_of-returned, loop-IsFree, errors_of, Tells-error, cluster_key, Tells-success,
  IsFree, Tells, HasKind,
}
use oneinfra.Base.{
  ℕ, String, ◌≡◌, refl, sym, ◌∙◌, subst, ◌↔◌, ◌⊎◌, inl, inr, Bool, true, false, not, ◌&&◌, Option,
  none, some, [], ◌∷◌, arith, ◌==◌, eq_iff, Bool-cases, All,
}
use oneinfra.Base.Errors.{Error}
use oneinfra.Reconciler.Components.{
  or_all, loop, ComponentList, reconcile_deletion, reconcile, no_instance, reconcile_started,
  deletion_round, set_component_condition, after_reconcile, after_deletion, ReconcileErrors,
  reconcile_round, reconcile_succeeded, cleanup_finalizer, control_plane_ingress_role,
  control_plane_role, ComponentMethods, Component,
}

-- The component has a known role, and its last reconciliation succeeded.
abbrev pub Reconciled : Component → Type 0
Reconciled c = HasKind c × (is_condition c.conditions reconcile_succeeded condition_true ≡ true)

-- The component has a known role, and does not hold back its own deletion.
abbrev pub Released : Component → Type 0
Released c = HasKind c × (contains cleanup_finalizer c.finalizers ≡ false)

HasKind-subst : (c d : Component) → d.role ≡ c.role → HasKind c → HasKind d
HasKind-subst c d e k =
    subst (λ r. (r ≡ control_plane_role) ⊎ (r ≡ control_plane_ingress_role)) (sym e) k

unknown_kind :
    (c : Component)
    → (c.role == control_plane_role) ≡ false
    → (c.role == control_plane_ingress_role) ≡ false
    → ¬ HasKind c
unknown_kind c e f (inl k) = ground (arith, eq_iff c.role control_plane_role)
unknown_kind c e f (inr k) = ground (arith, eq_iff c.role control_plane_ingress_role)

-- A method of a component leaves its role as it is.
abbrev pub KeepsRole : {W : Type 0} → (Component → W → (Component × W) × Option Error) → Type 0
KeepsRole {W} method = (c : Component) (w : W) → (method c w).0.0.role ≡ c.role

module _ {W : Type 0} (cp ingress : ComponentMethods W) where
  after_reconcile-Tells :
      (now : ℕ → ℕ) (r : (Component × W) × Option Error) (errors : ReconcileErrors) (j : String)
      → HasKind r.0.0
      → let o = after_reconcile cp ingress now r errors in Tells Reconciled errors o.1 o.0.0 j
  after_reconcile-Tells now ((c, w), none) errors j k =
      Tells-success Reconciled errors
        (set_component_condition cp ingress now reconcile_succeeded condition_true c) j
        (
          k,
          is_condition-set_condition_self now reconcile_succeeded condition_true condition_true
              c.conditions,
        )
  after_reconcile-Tells now ((c, w), some e) errors j k =
      let d = set_component_condition cp ingress now reconcile_succeeded condition_false c in
      Tells-error Reconciled errors d e j (λ good. absurd (
        ground (
          arith,
          good.1,
          is_condition-set_condition_self now reconcile_succeeded condition_false condition_true
              c.conditions,
        )))

  finalizer_gone :
      (b : Bool) → (b && not (contains cleanup_finalizer (cleanup_finalizer ∷ []))) ≡ false
  finalizer_gone b = ground arith

  after_deletion-Released :
      (r : (Component × W) × Option Error) (errors : ReconcileErrors) (j : String)
      → HasKind r.0.0
      → let o = after_deletion cp ingress r errors in
        IsFree o.1 j → IsFree errors j × (cluster_key o.0.0 ≡ j → Released o.0.0)
  after_deletion-Released ((c, w), none) errors j k f = (
    f,
    (λ _. (
      k,
      contains-remove_elements_from_list cleanup_finalizer c.finalizers (cleanup_finalizer ∷ [])
          ∙ finalizer_gone _,
    )),
  )
  after_deletion-Released ((c, w), some e) errors j k f =
      let (a, b) = (Tells-error (λ _. ⊥) errors c e j (λ z. z)).0 f in (a, (λ q. absurd (b q)))

  module _ (starts ends : ℕ → ℕ → ℕ) (keeps : KeepsRole cp.reconcile)
      (keeps' : KeepsRole ingress.reconcile) where
    reconcile_round-Tells :
        (i : ℕ) (c : Component) (w : W) (errors : ReconcileErrors) (j : String)
        → let r = reconcile_round cp ingress starts ends i c w errors in
          Tells Reconciled errors r.1 r.0.0 j
    unfolding reconcile_round
    reconcile_round-Tells i c w errors j =
        let started =
          set_component_condition cp ingress (starts i) reconcile_started condition_true c in
        elim (Bool-cases (c.role == control_plane_role)) [
          | inl e ↦ rw e (
              after_reconcile-Tells (ends i) (cp.reconcile started w) errors j (
                HasKind-subst c (cp.reconcile started w).0.0 (keeps started w)
                  (inl ((eq_iff c.role control_plane_role).0 e))))
          | inr e ↦ rw e (elim (Bool-cases (c.role == control_plane_ingress_role)) [
            | inl f ↦ rw f (
                after_reconcile-Tells (ends i) (ingress.reconcile started w) errors j (
                  HasKind-subst c (ingress.reconcile started w).0.0 (keeps' started w)
                    (inr ((eq_iff c.role control_plane_ingress_role).0 f))))
            | inr f ↦
                rw f (
                  Tells-error Reconciled errors c no_instance j (λ good. unknown_kind c e f good.0))
          ])
        ]

  module _ (keeps : KeepsRole cp.reconcile_deletion)
      (keeps' : KeepsRole ingress.reconcile_deletion) where
    deletion_round-Released :
        (i : ℕ) (c : Component) (w : W) (errors : ReconcileErrors) (j : String)
        → let r = deletion_round cp ingress i c w errors in
          IsFree r.1 j → IsFree errors j × (cluster_key r.0.0 ≡ j → Released r.0.0)
    unfolding deletion_round
    deletion_round-Released i c w errors j = elim (Bool-cases (c.role == control_plane_role)) [
      | inl e ↦ rw e (
          after_deletion-Released (cp.reconcile_deletion c w) errors j (
            HasKind-subst c (cp.reconcile_deletion c w).0.0 (keeps c w)
              (inl ((eq_iff c.role control_plane_role).0 e))))
      | inr e ↦ rw e (elim (Bool-cases (c.role == control_plane_ingress_role)) [
        | inl f ↦ rw f (
            after_deletion-Released (ingress.reconcile_deletion c w) errors j (
              HasKind-subst c (ingress.reconcile_deletion c w).0.0 (keeps' c w)
                (inr ((eq_iff c.role control_plane_ingress_role).0 f))))
        | inr f ↦ rw f (λ free.
            let (a, b) = (Tells-error (λ _. ⊥) errors c no_instance j (λ z. z)).0 free in
            (a, (λ q. absurd (b q))))
      ])
    ]

    -- Where the components' own methods leave roles as they are: if a cluster is free of errors
    -- after ReconcileDeletion, each component that it was called for, and is of the cluster,
    -- has a known role and no longer the finalizer that holds back its deletion.
    pub reconcile_deletion-Released :
        (all components : ComponentList) (w : W) (namespace name : String)
        → is_cluster_error_free
            (errors_of (reconcile_deletion cp ingress all components w).1)
            namespace
            name
          ≡ true
        → All
            (λ c. cluster_key c ≡ full_cluster_name namespace name → Released c)
            (reconcile_deletion cp ingress all components w).0.0
    unfolding reconcile_deletion is_cluster_error_free
    reconcile_deletion-Released all components w namespace name free =
        let j = full_cluster_name namespace name in
        let r = loop (deletion_round cp ingress) 0 components w [] in
        (loop-IsFree Released (deletion_round cp ingress) deletion_round-Released 0 components w []
          j (subst (λ z. IsFree z j) (errors_of-returned r).1 free)).1

  module _ (starts ends : ℕ → ℕ → ℕ) (keeps : KeepsRole cp.reconcile)
      (keeps' : KeepsRole ingress.reconcile) where
    -- Where the components' own methods leave roles as they are: after Reconcile a cluster is
    -- free of errors exactly if each component that was reconciled, and is of the cluster, has
    -- a known role and the condition that its reconciliation succeeded.
    pub reconcile-Reconciled :
        (all components : ComponentList) (w : W) (namespace name : String)
        → let r = reconcile cp ingress all starts ends components w in
          (is_cluster_error_free (errors_of r.1) namespace name ≡ true)
          ↔ All (λ c. cluster_key c ≡ full_cluster_name namespace name → Reconciled c) r.0.0
    unfolding reconcile is_cluster_error_free Dict.lookup
    reconcile-Reconciled all components w namespace name =
        let j = full_cluster_name namespace name in
        let round = reconcile_round cp ingress starts ends in
        let r = loop round 0 (or_all components all) w [] in
        let same = (errors_of-returned r).1 in
        let (there, back) =
          loop-Tells Reconciled round (reconcile_round-Tells starts ends keeps keeps') 0
            (or_all components all) w [] j in
        (
          (λ free. (there (subst (λ z. IsFree z j) same free)).1),
          (λ good. subst (λ z. IsFree z j) (sym same) (back (refl, good))),
        )

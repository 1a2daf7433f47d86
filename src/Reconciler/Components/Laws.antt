-- ===== src/Reconciler/Components/Laws.antt =====
-- What the errors of a cycle say of the components.
use oneinfra.Reconciler.Laws.{no_errors-add_error}
use oneinfra.Reconciler.Components.{
  returned, nil_if_empty, ComponentList, add_error_of, loop, Outcome,
}
use oneinfra.Component.{control_plane_ingress_role, control_plane_role, Component}
use oneinfra.Reconciler.{Error, full_cluster_name, no_errors, ReconcileErrors}
use oneinfra.Base.{
  ℕ, suc, String, ◌≡◌, refl, ◌↔◌, ◌⊎◌, inl, inr, true, Option, none, some, [], ◌∷◌, arith, ◌==◌,
  eq_iff, Bool-cases, All,
}
use oneinfra.Dict

-- The role is one for which the reconciler finds methods.
abbrev pub HasKind : Component → Type 0
HasKind c = (c.role ≡ control_plane_role) ⊎ (c.role ≡ control_plane_ingress_role)

abbrev pub cluster_key : Component → String
cluster_key c = full_cluster_name c.namespace c.cluster_name

abbrev pub IsFree : ReconcileErrors → String → Type 0
IsFree errors j = no_errors (Dict.lookup j errors) ≡ true

module _ (Good : Component → Type 0) where
  -- The cluster `j` stays free of errors exactly if the component, as it is left, is good or of
  -- another cluster.
  abbrev pub Tells : ReconcileErrors → ReconcileErrors → Component → String → Type 0
  Tells errors errors' c j = IsFree errors' j ↔ (IsFree errors j × (cluster_key c ≡ j → Good c))

  pub Tells-success :
      (errors : ReconcileErrors) (c : Component) (j : String) → Good c → Tells errors errors c j
  Tells-success errors c j good = ((λ f. (f, (λ _. good))), (λ p. p.0))

  pub Tells-error :
      (errors : ReconcileErrors) (c : Component) (e : Error) (j : String)
      → ¬ Good c
      → Tells errors (add_error_of c e errors) c j
  Tells-error errors c e j bad = elim (Bool-cases (cluster_key c == j)) [
    | inl q ↦ (
      (λ f. absurd (ground (arith, rw (no_errors-add_error errors (cluster_key c) j _, q) at f))),
      (λ p. absurd (bad (p.1 ((eq_iff (cluster_key c) j).0 q)))),
    )
    | inr q ↦ (
      (λ f. (
        rw (no_errors-add_error errors (cluster_key c) j _, q) at f,
        (λ i. absurd (ground (arith, eq_iff (cluster_key c) j))),
      )),
      (λ p. rw (no_errors-add_error errors (cluster_key c) j _, q) p.0),
    )
  ]

  module _ {W : Type 0} (round : ℕ → Component → W → ReconcileErrors → Outcome W)
      (tells : (i : ℕ) (c : Component) (w : W) (errors : ReconcileErrors) (j : String)
        → let r = round i c w errors in Tells errors r.1 r.0.0 j) where
    pub loop-Tells :
        (i : ℕ) (l : ComponentList) (w : W) (errors : ReconcileErrors) (j : String)
        → let r = loop round i l w errors in
          IsFree r.1 j ↔ (IsFree errors j × All (λ c. cluster_key c ≡ j → Good c) r.0.0)
    unfolding loop
    loop-Tells i [] w errors j = ((λ f. (f, tt)), (λ p. p.0))
    loop-Tells i (c ∷ l) w errors j =
        let r = round i c w errors in
        let (there, back) = loop-Tells (suc i) l r.0.1 r.1 j in
        let (there', back') = tells i c w errors j in
        (
          (λ f. let (a, b) = there f in let (x, y) = there' a in (x, (y, b))),
          (λ p. back (back' (p.0, p.1.0), p.1.1)),
        )

  module _ {W : Type 0} (round : ℕ → Component → W → ReconcileErrors → Outcome W)
      (there : (i : ℕ) (c : Component) (w : W) (errors : ReconcileErrors) (j : String)
        → let r = round i c w errors in
          IsFree r.1 j → IsFree errors j × (cluster_key r.0.0 ≡ j → Good r.0.0)) where
    pub loop-IsFree :
        (i : ℕ) (l : ComponentList) (w : W) (errors : ReconcileErrors) (j : String)
        → let r = loop round i l w errors in
          IsFree r.1 j → IsFree errors j × All (λ c. cluster_key c ≡ j → Good c) r.0.0
    unfolding loop
    loop-IsFree i [] w errors j f = (f, tt)
    loop-IsFree i (c ∷ l) w errors j f =
        let r = round i c w errors in
        let (a, b) = loop-IsFree (suc i) l r.0.1 r.1 j f in
        let (x, y) = there i c w errors j a in (x, (y, b))

-- The errors that a caller sees, where nil has no entry.
abbrev pub errors_of : Option ReconcileErrors → ReconcileErrors
errors_of none = []
errors_of (some errors) = errors

pub errors_of-nil_if_empty : (errors : ReconcileErrors) → errors_of (nil_if_empty errors) ≡ errors
errors_of-nil_if_empty [] = ground arith
errors_of-nil_if_empty (e ∷ errors) = ground arith

pub errors_of-returned :
    {W : Type 0} (r : (ComponentList × W) × ReconcileErrors)
    → ((returned r).0.0 ≡ r.0.0) × (errors_of (returned r).1 ≡ r.1)
errors_of-returned (left, errors) = (refl, errors_of-nil_if_empty errors)

-- ===== src/Reconciler/Components.antt =====
-- internal/pkg/component/reconciler/reconciler.go: the component reconciler. The two kinds of
-- components that it finds for a role are parameters, with the three methods of the interface
-- `components.Component`. Such a method changes the component that it is called for, and `W`: all
-- else that the inquirer gives it. `now i` is the clock as the i-th component meets it.
pub mod Laws
pub mod Cycle
use oneinfra.Conditions.{condition_false, condition_true, set_condition}
use oneinfra.Utils.{remove_elements_from_list}
use oneinfra.Component.{
  control_plane_ingress_role, reconcile_started, control_plane_role, reconcile_succeeded, Component,
}
use oneinfra.Reconciler.{add_component_error, ReconcileErrors}
use oneinfra.Component.Listing.{ComponentList}
use oneinfra.Base.{
  ℕ, suc, String, not, Option, none, some, [], ◌∷◌, ◌==◌, eqb, if◌then◌else◌, length,
}
use oneinfra.Base.Errors.{errorf, Error}

pub record ComponentMethods (W : Type 0) : Type 0 where
  pub pre_reconcile : Component → W → (Component × W) × Option Error
  pub reconcile : Component → W → (Component × W) × Option Error
  pub reconcile_deletion : Component → W → (Component × W) × Option Error

abbrev pub cleanup_finalizer : String
cleanup_finalizer = "oneinfra/cleanup"

-- What a reconciliation works on and leaves behind.
abbrev pub Outcome : Type 0 → Type 0
Outcome W = (Component × W) × ReconcileErrors

abbrev pub no_instance : Error
no_instance = errorf "could not retrieve a specific component instance" []

abbrev pub add_error_of : Component → Error → ReconcileErrors → ReconcileErrors
add_error_of component e errors =
    add_component_error errors component.namespace component.cluster_name component.name e

abbrev pub nil_if_empty : ReconcileErrors → Option ReconcileErrors
nil_if_empty errors = if eqb (length errors) 0 then none else some errors

module _ {W : Type 0} (control_plane control_plane_ingress : ComponentMethods W) where
  unfoldable pub retrieve_component : Component → Option (ComponentMethods W)
  retrieve_component component =
      if component.role == control_plane_role
      then some control_plane
      else if component.role == control_plane_ingress_role
      then some control_plane_ingress
      else none

  abbrev pub after_pre_reconcile : (Component × W) × Option Error → ReconcileErrors → Outcome W
  after_pre_reconcile (left, none) errors = (left, errors)
  after_pre_reconcile ((component, w), some e) errors =
      ((component, w), add_error_of component e errors)

  abbrev pub pre_reconcile_with :
      Option (ComponentMethods W) → Component → W → ReconcileErrors → Outcome W
  pre_reconcile_with none component w errors =
      ((component, w), add_error_of component no_instance errors)
  pre_reconcile_with (some methods) component w errors =
      after_pre_reconcile (methods.pre_reconcile component w) errors

  abbrev pub set_component_condition : (ℕ → ℕ) → String → String → Component → Component
  set_component_condition now condition_type status component = record component {
    conditions = set_condition now component.conditions condition_type status;
  }

  abbrev pub after_reconcile :
      (ℕ → ℕ) → (Component × W) × Option Error → ReconcileErrors → Outcome W
  after_reconcile now ((component, w), none) errors =
      ((set_component_condition now reconcile_succeeded condition_true component, w), errors)
  after_reconcile now ((component, w), some e) errors = (
    (set_component_condition now reconcile_succeeded condition_false component, w),
    add_error_of component e errors,
  )

  abbrev pub reconcile_with :
      (ℕ → ℕ) → (ℕ → ℕ) → Option (ComponentMethods W) → Component → W → ReconcileErrors → Outcome W
  reconcile_with start end none component w errors =
      ((component, w), add_error_of component no_instance errors)
  reconcile_with start end (some methods) component w errors =
      after_reconcile end
        (methods.reconcile
          (set_component_condition start reconcile_started condition_true component) w)
        errors

  abbrev pub after_deletion : (Component × W) × Option Error → ReconcileErrors → Outcome W
  after_deletion ((component, w), none) errors = (
    (
      record component {
        finalizers = remove_elements_from_list component.finalizers (cleanup_finalizer ∷ []);
      },
      w,
    ),
    errors,
  )
  after_deletion ((component, w), some e) errors = ((component, w), add_error_of component e errors)

  abbrev pub reconcile_deletion_with :
      Option (ComponentMethods W) → Component → W → ReconcileErrors → Outcome W
  reconcile_deletion_with none component w errors =
      ((component, w), add_error_of component no_instance errors)
  reconcile_deletion_with (some methods) component w errors =
      after_deletion (methods.reconcile_deletion component w) errors

  -- One round of each of the three loops.
  unfoldable pub pre_reconcile_round : ℕ → Component → W → ReconcileErrors → Outcome W
  unfolding retrieve_component
  pre_reconcile_round i component = pre_reconcile_with (retrieve_component component) component

  unfoldable pub deletion_round : ℕ → Component → W → ReconcileErrors → Outcome W
  unfolding retrieve_component
  deletion_round i component = reconcile_deletion_with (retrieve_component component) component

  unfoldable pub reconcile_round :
      (ℕ → ℕ → ℕ) → (ℕ → ℕ → ℕ) → ℕ → Component → W → ReconcileErrors → Outcome W
  unfolding retrieve_component
  reconcile_round starts ends i component =
      reconcile_with (starts i) (ends i) (retrieve_component component) component

-- The three loops, by their rounds: the components as they are left behind, the rest, the errors.
unfoldable pub loop :
    {W : Type 0}
    → (ℕ → Component → W → ReconcileErrors → Outcome W)
    → ℕ
    → ComponentList
    → W
    → ReconcileErrors
    → (ComponentList × W) × ReconcileErrors
loop round i [] w errors = (([], w), errors)
loop round i (component ∷ rest) w errors =
    let ((component', w'), errors') = round i component w errors in
    let ((rest', w''), errors'') = loop round (suc i) rest w' errors' in
    ((component' ∷ rest', w''), errors'')

abbrev pub returned :
    {W : Type 0}
    → (ComponentList × W) × ReconcileErrors
    → (ComponentList × W) × Option ReconcileErrors
returned (left, errors) = (left, nil_if_empty errors)

-- Without arguments, PreReconcile and Reconcile work on all components of the reconciler.
abbrev pub or_all : ComponentList → ComponentList → ComponentList
or_all [] component_list = component_list
or_all (component ∷ rest) component_list = component ∷ rest

module _ {W : Type 0} (control_plane control_plane_ingress : ComponentMethods W)
    (component_list : ComponentList) where
  unfoldable pub pre_reconcile : ComponentList → W → (ComponentList × W) × Option ReconcileErrors
  unfolding loop pre_reconcile_round
  pre_reconcile components w = returned (
      loop (pre_reconcile_round control_plane control_plane_ingress) 0
        (or_all components component_list) w [])

  unfoldable pub reconcile_deletion :
      ComponentList → W → (ComponentList × W) × Option ReconcileErrors
  unfolding loop deletion_round
  reconcile_deletion components w =
      returned (loop (deletion_round control_plane control_plane_ingress) 0 components w [])

  unfoldable pub reconcile :
      (ℕ → ℕ → ℕ) → (ℕ → ℕ → ℕ) → ComponentList → W → (ComponentList × W) × Option ReconcileErrors
  unfolding loop reconcile_round
  reconcile starts ends components w = returned (
      loop (reconcile_round control_plane control_plane_ingress starts ends) 0
        (or_all components component_list) w [])

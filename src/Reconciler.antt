-- ===== src/Reconciler.antt =====
-- internal/pkg/reconciler/reconcile_errors.go: the errors of a reconciliation cycle, by cluster.
pub mod Laws
pub mod Components
pub mod Clusters
use oneinfra.Base.{
  ◌/◌, String, Bool, true, Option, none, some, List, [], ◌∷◌, ◌++◌, eqb, length, concat,
}
use oneinfra.Base.Errors.{wrap, Error}
use oneinfra.Dict
use oneinfra.Dict.{Dict}

-- A nil map and an empty one have the same entries.
abbrev pub ReconcileErrors : Type 0
ReconcileErrors = Dict (List Error)

abbrev pub full_cluster_name : String → String → String
full_cluster_name cluster_namespace cluster_name =
    concat cluster_namespace (concat "/" cluster_name)

abbrev pub no_errors : Option (List Error) → Bool
no_errors none = true
no_errors (some cluster_errors) = eqb (length cluster_errors) 0

unfoldable pub is_cluster_error_free : ReconcileErrors → String → String → Bool
is_cluster_error_free reconcile_errors cluster_namespace cluster_name =
    no_errors (Dict.lookup (full_cluster_name cluster_namespace cluster_name) reconcile_errors)

abbrev pub ensured : Option (List Error) → ReconcileErrors → String → ReconcileErrors
ensured none reconcile_errors name = Dict.insert name [] reconcile_errors
ensured (some _) reconcile_errors name = reconcile_errors

unfoldable pub ensure_cluster_entry : ReconcileErrors → String → ReconcileErrors
ensure_cluster_entry reconcile_errors name =
    ensured (Dict.lookup name reconcile_errors) reconcile_errors name

-- m[k], which is empty for a missing key
abbrev pub entry : Option (List Error) → List Error
entry none = []
entry (some cluster_errors) = cluster_errors

unfoldable pub add_error : ReconcileErrors → String → Error → ReconcileErrors
unfolding ensure_cluster_entry
add_error reconcile_errors name e =
    let entries = ensure_cluster_entry reconcile_errors name in
    Dict.insert name (entry (Dict.lookup name entries) ++ e ∷ []) entries

abbrev pub add_cluster_error : ReconcileErrors → String → String → Error → ReconcileErrors
add_cluster_error reconcile_errors cluster_namespace cluster_name e =
    add_error reconcile_errors (full_cluster_name cluster_namespace cluster_name) e

abbrev pub add_component_error :
    ReconcileErrors → String → String → String → Error → ReconcileErrors
add_component_error reconcile_errors cluster_namespace cluster_name component_name e =
    add_error reconcile_errors (full_cluster_name cluster_namespace cluster_name)
      (wrap e component_name [])

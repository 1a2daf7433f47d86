-- ===== src/Reconciler/Laws.antt =====
-- Which clusters an error concerns.
use oneinfra.Base.Errors.{Error}
use oneinfra.Reconciler.{
  ensured, entry, ReconcileErrors, ensure_cluster_entry, no_errors, add_error,
}
use oneinfra.Base.{
  String, ◌≡◌, refl, ap, ◌∙◌, inl, inr, false, Option, none, some, List, [], ◌∷◌, ◌++◌, arith, ◌==◌,
  if◌then◌else◌, Bool-cases,
}
use oneinfra.Dict
use oneinfra.Dict.{lookup-insert}

lookup-ensured_other :
    (o : Option (List Error)) (errors : ReconcileErrors) (k j : String)
    → (k == j) ≡ false
    → Dict.lookup j (ensured o errors k) ≡ Dict.lookup j errors
lookup-ensured_other none errors k j ne = lookup-insert k j [] errors ∙ rw ne refl
lookup-ensured_other (some l) errors k j ne = refl

no_errors-snoc : (l : List Error) (e : Error) → no_errors (some (l ++ e ∷ [])) ≡ false
no_errors-snoc [] e = ground arith
no_errors-snoc (x ∷ l) e = ground arith

-- An error makes its own cluster, and no other one, one that is not free of errors.
pub no_errors-add_error :
    (errors : ReconcileErrors) (k j : String) (e : Error)
    → no_errors (Dict.lookup j (add_error errors k e))
      ≡ (if k == j then false else no_errors (Dict.lookup j errors))
unfolding add_error ensure_cluster_entry
no_errors-add_error errors k j e =
    rw
      (lookup-insert k j (entry (Dict.lookup k (ensure_cluster_entry errors k)) ++ e ∷ [])
        (ensure_cluster_entry errors k))
      (elim (Bool-cases (k == j)) [
        | inl q ↦ rw q (no_errors-snoc _ e)
        | inr q ↦ rw q (ap no_errors (lookup-ensured_other (Dict.lookup k errors) errors k j q))
      ])

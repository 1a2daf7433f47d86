-- ===== src/Reconciler/Clusters/Deletion.antt =====
-- When the reconciler lets go of a cluster that is being deleted.
use oneinfra.Reconciler.Clusters.Cycle.{IsFree-add_error, key_of}
use oneinfra.Reconciler.Components.Laws.{errors_of-nil_if_empty, IsFree, errors_of}
use oneinfra.Utils.{remove_elements_from_list}
use oneinfra.Reconciler.{full_cluster_name, is_cluster_error_free}
use oneinfra.Reconciler.Components.{cleanup_finalizer}
use oneinfra.Utils.Laws.{contains-remove_elements_from_list, contains}
use oneinfra.Reconciler.Clusters.{ReconcileErrors, Cluster}
use oneinfra.Reconciler.Clusters.Steps.{cluster_deletion_loop, reconcile_cluster_deletion}
use oneinfra.Component.Listing.{with_cluster, ComponentList}
use oneinfra.Base.{
  String, ◌≡◌, ◌∙◌, subst, inl, inr, Bool, true, false, not, ◌&&◌, List, [], ◌∷◌, arith, ltb,
  Bool-cases, length, All,
}

module _ (component_list : ComponentList) where
  -- No component of the cluster is left, and the cluster no longer holds back its own deletion.
  abbrev pub LetGo : Cluster → Type 0
  LetGo c =
      (length (with_cluster component_list c.namespace c.name) ≡ 0)
      × (contains cleanup_finalizer c.finalizers ≡ false)

  gone : (b : Bool) → (b && not (contains cleanup_finalizer (cleanup_finalizer ∷ []))) ≡ false
  gone b = ground arith

  finalizer_removed :
      (l : List String)
      → contains cleanup_finalizer (remove_elements_from_list l (cleanup_finalizer ∷ [])) ≡ false
  finalizer_removed l =
      contains-remove_elements_from_list cleanup_finalizer l (cleanup_finalizer ∷ [])
      ∙ gone (contains cleanup_finalizer l)

  cluster_deletion_loop-LetGo :
      (l : List Cluster) (errors : ReconcileErrors) (j : String)
      → let r = cluster_deletion_loop component_list l errors in
        IsFree r.1 j → IsFree errors j × All (λ c. key_of c ≡ j → LetGo c) r.0
  unfolding cluster_deletion_loop
  cluster_deletion_loop-LetGo [] errors j = λ free. (free, tt)
  cluster_deletion_loop-LetGo (c ∷ l) errors j =
      let n = length (with_cluster component_list c.namespace c.name) in
      elim (Bool-cases (ltb 0 n)) [
        | inl e ↦ rw e (λ free.
            let (a, b) = cluster_deletion_loop-LetGo l _ j free in
            let (x, y) = IsFree-add_error errors (key_of c) j _ a in (x, ((λ k. absurd (y k)), b)))
        | inr e ↦ rw e (λ free.
            let (a, b) = cluster_deletion_loop-LetGo l errors j free in
            (a, ((λ k. (ground (arith, e), finalizer_removed c.finalizers)), b)))
      ]

  -- If a cluster is free of errors after ReconcileDeletion, no component is left of each cluster
  -- with its names that it was called for, and the finalizer of that cluster is gone.
  pub reconcile_cluster_deletion-LetGo :
      (clusters : List Cluster) (namespace name : String)
      → is_cluster_error_free
          (errors_of (reconcile_cluster_deletion component_list clusters).1)
          namespace
          name
        ≡ true
      → All
          (λ c. key_of c ≡ full_cluster_name namespace name → LetGo c)
          (reconcile_cluster_deletion component_list clusters).0
  unfolding reconcile_cluster_deletion is_cluster_error_free
  reconcile_cluster_deletion-LetGo clusters namespace name free =
      let j = full_cluster_name namespace name in
      (cluster_deletion_loop-LetGo clusters [] j
        (subst (λ z. IsFree z j) (errors_of-nil_if_empty _) free)).1

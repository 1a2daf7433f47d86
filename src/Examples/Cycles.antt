-- ===== src/Examples/Cycles.antt =====
-- Cycles of the component reconciler and of the cluster controller.
use oneinfra.Reconciler.Components.Cycle.{
  reconcile-Reconciled, reconcile_deletion-Released, Reconciled, Released,
}
use oneinfra.Base.Integers.{pos}
use oneinfra.Base.Errors.{ok, errorf}
use oneinfra.Reconciler.{full_cluster_name, is_cluster_error_free}
use oneinfra.Controllers.Clusters.Laws.{reconcile-Scaled, reconcile-Deletes, Scaled, Deletes}
use oneinfra.Controllers.Clusters.{reconcile, ClusterReplicas}
use oneinfra.Controllers.{no_requeue, Codecs, Client}
use oneinfra.Reconciler.Components.{ComponentMethods}
use oneinfra.Reconciler.Components.Laws.{errors_of, cluster_key}
use oneinfra.Examples.{component_b, component_a}
use oneinfra.Base.{ℕ, suc, ◌+◌, ◌-◌, ◌≡◌, refl, ◌↔◌, true, none, some, [], ◌∷◌, All}
use oneinfra.Reconciler.Components
use oneinfra.Controllers.Clusters

-- Methods that do nothing, and methods that fail.
abbrev idle : ComponentMethods Unit
idle = record {
  pre_reconcile = λ c w. ((c, w), none);
  reconcile = λ c w. ((c, w), none);
  reconcile_deletion = λ c w. ((c, w), none);
}

abbrev failing : ComponentMethods Unit
failing = record {
  pre_reconcile = λ c w. ((c, w), some (errorf "refused" []));
  reconcile = λ c w. ((c, w), some (errorf "refused" []));
  reconcile_deletion = λ c w. ((c, w), some (errorf "refused" []));
}

abbrev clocks : ℕ → ℕ → ℕ
clocks i n = i + n

reconcile-Reconciled_example :
    let r =
      Components.reconcile idle failing (component_a ∷ component_b ∷ []) clocks clocks [] tt in
    (is_cluster_error_free (errors_of r.1) "default" "cluster" ≡ true)
    ↔ All (λ c. cluster_key c ≡ full_cluster_name "default" "cluster" → Reconciled c) r.0.0
reconcile-Reconciled_example =
    reconcile-Reconciled idle failing clocks clocks (λ c w. refl) (λ c w. refl)
      (component_a ∷ component_b ∷ []) [] tt "default" "cluster"

all_released :
    is_cluster_error_free
      (errors_of (Components.reconcile_deletion idle failing [] (component_a ∷ []) tt).1)
      "default"
      "cluster"
    ≡ true
unfolding is_cluster_error_free Components.reconcile_deletion oneinfra.Dict.lookup
all_released = refl

reconcile_deletion-Released_example :
    All
      (λ c. cluster_key c ≡ full_cluster_name "default" "cluster" → Released c)
      (Components.reconcile_deletion idle failing [] (component_a ∷ []) tt).0.0
reconcile_deletion-Released_example =
    reconcile_deletion-Released idle failing (λ c w. refl) (λ c w. refl) [] (component_a ∷ []) tt
      "default" "cluster" all_released

abbrev counting : Client ℕ
counting = record {
  list_hypervisors = λ w. ok [];
  list_components = λ w. ok [];
  update_component = λ v w. (w, none);
  create_component = λ v w. (suc w, none);
  delete_component = λ v w. (w - 1, none);
}

abbrev name_codecs : Codecs
name_codecs = record {
  encode_hypervisor = λ v. some v.name;
  json_marshal = λ v. ok v.name;
  sha1_hex = λ s. s;
  sort_strings = λ l. l;
}

abbrev growing : ClusterReplicas
growing = record {
  name = "cluster";
  namespace = "default";
  control_plane_replicas = pos 3;
  deletion_timestamp = none;
}

grows : (Clusters.reconcile counting name_codecs growing (component_a ∷ []) 1).1 ≡ ok no_requeue
unfolding Clusters.reconcile
grows = refl

reconcile-Scaled_example :
    Scaled counting name_codecs growing
      (component_a ∷ [])
      1
      (Clusters.reconcile counting name_codecs growing (component_a ∷ []) 1).0
reconcile-Scaled_example =
    reconcile-Scaled counting name_codecs growing (component_a ∷ []) 1 refl grows

abbrev leaving : ClusterReplicas
leaving = record growing { deletion_timestamp = some 5 }

leaves : (Clusters.reconcile counting name_codecs leaving (component_a ∷ []) 1).1 ≡ ok no_requeue
unfolding Clusters.reconcile
leaves = refl

reconcile-Deletes_example :
    Deletes counting name_codecs
      (component_a ∷ [])
      1
      (Clusters.reconcile counting name_codecs leaving (component_a ∷ []) 1).0
reconcile-Deletes_example =
    reconcile-Deletes counting name_codecs leaving (component_a ∷ []) 1 5 refl leaves

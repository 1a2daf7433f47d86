-- ===== src/Component/Listing.antt =====
-- Lists of components: internal/pkg/component/component_list.go. The components are pointers
-- there; the functions of this file only read them.
use oneinfra.Base.{
  ℕ, String, ◌≡◌, refl, ◌≢◌, ◌↔◌, Bool, true, false, ◌&&◌, Option, none, some, List, [], ◌∷◌, arith,
  ◌==◌, eq_iff, if◌then◌else◌, All,
}
use oneinfra.Base.Errors.{Result}
use oneinfra.Component.{Component}
use oneinfra.Infra.Listing.{sample}

abbrev pub ComponentList : Type 0
ComponentList = List Component

unfoldable pub with_name : ComponentList → String → Option Component
with_name [] name = none
with_name (component ∷ list) name =
    if component.name == name then some component else with_name list name

unfoldable pub with_role : ComponentList → String → ComponentList
with_role [] role = []
with_role (component ∷ list) role =
    let res = with_role list role in if component.role == role then component ∷ res else res

unfoldable pub with_cluster : ComponentList → String → String → ComponentList
with_cluster [] cluster_namespace cluster_name = []
with_cluster (component ∷ list) cluster_namespace cluster_name =
    let res = with_cluster list cluster_namespace cluster_name in
    if component.namespace == cluster_namespace && component.cluster_name == cluster_name
    then component ∷ res
    else res

abbrev pub sample_component : (ℕ → ℕ) → ComponentList → Result Component
sample_component rand_intn = sample rand_intn "no components available"

unfoldable pub all_with_hypervisor_assigned : ComponentList → Bool
all_with_hypervisor_assigned [] = true
all_with_hypervisor_assigned (component ∷ list) =
    if component.hypervisor_name == "" then false else all_with_hypervisor_assigned list

-- Choosing by role and by cluster can be done in either order.
pub with_role-with_cluster :
    (l : ComponentList) (role namespace name : String)
    → with_role (with_cluster l namespace name) role
      ≡ with_cluster (with_role l role) namespace name
unfolding with_role with_cluster
with_role-with_cluster [] role namespace name = refl
with_role-with_cluster (c ∷ l) role namespace name =
    ground (arith, with_role-with_cluster l role namespace name)

-- The components of a cluster belong to it.
pub All-with_cluster :
    (l : ComponentList) (namespace name : String)
    → All (λ c. (c.namespace ≡ namespace) × (c.cluster_name ≡ name)) (with_cluster l namespace name)
unfolding with_cluster
All-with_cluster [] namespace name = tt
All-with_cluster (c ∷ l) namespace name = ground (
  arith,
  All-with_cluster l namespace name,
  eq_iff c.namespace namespace,
  eq_iff c.cluster_name name,
)

-- AllWithHypervisorAssigned holds exactly if every component names a hypervisor.
pub all_with_hypervisor_assigned_lem :
    (l : ComponentList)
    → (all_with_hypervisor_assigned l ≡ true) ↔ All (λ c. c.hypervisor_name ≢ "") l
unfolding all_with_hypervisor_assigned
all_with_hypervisor_assigned_lem [] = ((λ _. tt), (λ _. refl))
all_with_hypervisor_assigned_lem (c ∷ l) =
    ground (arith, all_with_hypervisor_assigned_lem l, eq_iff c.hypervisor_name "")

-- ===== src/Controllers/Clusters.antt =====
-- controllers/cluster_controller.go: how many components a cluster has. The cluster is the part of
-- it that this controller reads, and the components are those that listClusterComponents found.
pub mod Laws
use oneinfra.Component.{control_plane_role, new_component, control_plane_ingress_role}
use oneinfra.Component.Listing.{ComponentList}
use oneinfra.Controllers.{
  requeue_in, no_requeue, from_component, Component, CtrlResult, Codecs, Client,
}
use oneinfra.Base.{
  ℕ, zero, suc, ◌+◌, ◌-◌, String, Bool, true, false, not, Option, none, some, [], ◌∷◌, ◌==◌, ltb,
  eqb, if◌then◌else◌, length, concat,
}
use oneinfra.Base.Errors.{Error, Result, ok, err, errorf}
use oneinfra.Base.Integers.{ℤ, pos, negsuc}

pub record ClusterReplicas : Type 0 where
  pub name : String
  pub namespace : String
  pub control_plane_replicas : ℤ
  pub deletion_timestamp : Option ℕ

abbrev pub is_nil : Option ℕ → Bool
is_nil none = true
is_nil (some _) = false

-- The loops that choose the components of a role that are not being deleted.
unfoldable pub undeleted : String → ComponentList → ComponentList
undeleted role [] = []
undeleted role (replica ∷ components) =
    let rest = undeleted role components in
    if not (replica.role == role)
    then rest
    else if not (is_nil replica.deletion_timestamp)
    then rest
    else replica ∷ rest

-- How a loop of calls of the API ends: it comes to its end, or Reconcile returns since a call failed,
-- or the loop runs over the end of a list, which panics.
pub data Ending : Type 0 where
  at_end : Ending
  call_failed : Ending
  out_of_range : Ending

-- What a loop of calls of the API leaves behind, and how it ends.
module _ {W : Type 0} (client : Client W) (codecs : Codecs) where
  abbrev pub next : W × Option Error → (W → W × Ending) → W × Ending
  next (w, none) rest = rest w
  next (w, some e) rest = (w, call_failed)

  unfoldable pub create_loop : ℕ → Component → W → W × Ending
  create_loop zero component w = (w, at_end)
  create_loop (suc i) component w =
      next (client.create_component (from_component codecs component) w) (create_loop i component)

  -- The first `i` components of the list, which panics where there are fewer.
  unfoldable pub delete_loop : ℕ → ComponentList → W → W × Ending
  delete_loop zero components w = (w, at_end)
  delete_loop (suc i) [] w = (w, out_of_range)
  delete_loop (suc i) (component ∷ components) w =
      next (client.delete_component (from_component codecs component) w) (delete_loop i components)

  abbrev pub control_plane_of : ClusterReplicas → Component
  control_plane_of cluster =
      new_component cluster.namespace cluster.name (concat cluster.name "-control-plane-")
        control_plane_role

  abbrev pub ingress_of : ClusterReplicas → Component
  ingress_of cluster =
      new_component cluster.namespace cluster.name (concat cluster.name "-control-plane-ingress-")
        control_plane_ingress_role

  -- The test for missing replicas and its two loops; a negative number leaves more to be deleted
  -- than there is.
  abbrev pub scale_control_plane : ℤ → Component → ComponentList → W → W × Ending
  scale_control_plane (pos desired) component replicas w =
      if ltb (length replicas) desired
      then create_loop (desired - length replicas) component w
      else delete_loop (length replicas - desired) replicas w
  scale_control_plane (negsuc n) component replicas w =
      delete_loop (length replicas + suc n) replicas w

  unfoldable pub reconcile_control_plane : ClusterReplicas → ComponentList → W → W × Ending
  unfolding create_loop delete_loop
  reconcile_control_plane cluster replicas w =
      scale_control_plane cluster.control_plane_replicas (control_plane_of cluster) replicas w

  unfoldable pub reconcile_ingress : ClusterReplicas → ComponentList → W → W × Ending
  unfolding create_loop delete_loop
  reconcile_ingress cluster replicas w =
      if eqb (length replicas) 0
      then create_loop 1 (ingress_of cluster) w
      else if ltb 1 (length replicas)
      then delete_loop (length replicas - 1) replicas w
      else (w, at_end)

  abbrev pub ended : W × Ending → W × Result CtrlResult
  ended (w, at_end) = (w, ok no_requeue)
  ended (w, call_failed) = (w, ok (requeue_in 10))
  ended (w, out_of_range) = (w, err (errorf "index out of range" []))

  abbrev pub then_ingress : ClusterReplicas → ComponentList → W × Ending → W × Ending
  then_ingress cluster components (w, at_end) =
      reconcile_ingress cluster (undeleted control_plane_ingress_role components) w
  then_ingress cluster components (w, call_failed) = (w, call_failed)
  then_ingress cluster components (w, out_of_range) = (w, out_of_range)

  -- Reconcile, once the cluster and its components are known.
  unfoldable pub reconcile : ClusterReplicas → ComponentList → W → W × Result CtrlResult
  unfolding undeleted reconcile_control_plane reconcile_ingress delete_loop
  reconcile cluster components w = ended (
      if is_nil cluster.deletion_timestamp
      then then_ingress cluster components
          (reconcile_control_plane cluster (undeleted control_plane_role components) w)
      else delete_loop (length components) components w)

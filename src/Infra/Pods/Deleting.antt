-- ===== src/Infra/Pods/Deleting.antt =====
-- ListPods, ListAllPods, DeletePods, DeletePod and DeletePodWithID of
-- internal/pkg/infra/hypervisor.go.
use oneinfra.Infra.Pods.Calls.{call-ensures, call-Keeps, cri_runtime-Keeps}
use oneinfra.Base.{String, ◌≡◌, refl, sym, subst, ◌⊎◌, inl, inr, List, [], ◌∷◌, map}
use oneinfra.Base.Errors.{ok_inj, errorf, err, ok, Exec, Result}
use oneinfra.Base.Actions.{err_ne_ok, >>=-Keeps, >>=-Ensures, Ensures, Keeps, pure, ◌>>=◌}
use oneinfra.Dict.{Dict}
use oneinfra.Infra.Pods.{
  ContainerRuntime, Host, call, cri_runtime, pod_labels, cluster_labels, PodSandbox,
}

-- An error is replaced by one that names the cluster.
abbrev pub sandbox_ids :
    {W : Type 0}
    → String
    → String
    → String
    → Result (List PodSandbox) × W
    → Result (List String) × W
sandbox_ids cluster_namespace cluster_name component_name (ok items, w) =
    (ok (map (λ sandbox. sandbox.id) items), w)
sandbox_ids cluster_namespace cluster_name component_name (err e, w) = (
  err (
      errorf "could not list pods for cluster %q/%q and component %q"
        (cluster_namespace ∷ cluster_name ∷ component_name ∷ [])),
  w,
)

module _ {W : Type 0} (cri : ContainerRuntime W) where
  -- The steps that ListPods and ListAllPods share.
  unfoldable pub list_labelled :
      String → String → String → Dict String → Exec (Host W) (List String)
  unfolding cri_runtime
  list_labelled cluster_namespace cluster_name component_name labels = do
    client ← cri_runtime cri
    λ host.
        sandbox_ids cluster_namespace cluster_name component_name
          (call (cri.list_pod_sandbox labels) host)

  unfoldable pub list_pods : String → String → String → String → Exec (Host W) (List String)
  unfolding list_labelled
  list_pods cluster_namespace cluster_name component_name pod_name =
      list_labelled cluster_namespace cluster_name component_name
        (pod_labels cluster_namespace cluster_name component_name pod_name)

  unfoldable pub list_all_pods : String → String → String → Exec (Host W) (List String)
  unfolding list_labelled
  list_all_pods cluster_namespace cluster_name component_name =
      list_labelled cluster_namespace cluster_name component_name
        (cluster_labels cluster_namespace cluster_name component_name)

  unfoldable pub delete_pod_with_id : String → Exec (Host W) Unit
  unfolding cri_runtime
  delete_pod_with_id pod_sandbox_id = do
    client ← cri_runtime cri
    stopped ← call (cri.stop_pod_sandbox pod_sandbox_id)
    call (cri.remove_pod_sandbox pod_sandbox_id)

  -- The loop of DeletePods and that of DeletePod.
  unfoldable pub delete_loop : List String → Exec (Host W) Unit
  unfolding delete_pod_with_id
  delete_loop [] = pure tt
  delete_loop (pod ∷ pod_list) = delete_pod_with_id pod >>= λ deleted. delete_loop pod_list

  unfoldable pub delete_pods : String → String → String → Exec (Host W) Unit
  unfolding list_all_pods delete_loop
  delete_pods cluster_namespace cluster_name component_name =
      list_all_pods cluster_namespace cluster_name component_name >>= λ pod_list.
      delete_loop pod_list

  unfoldable pub delete_pod : String → String → String → String → Exec (Host W) Unit
  unfolding list_pods delete_loop
  delete_pod cluster_namespace cluster_name component_name pod_name =
      list_pods cluster_namespace cluster_name component_name pod_name >>= λ pod_list.
      delete_loop pod_list

abbrev pub IsIn : String → List String → Type 0
IsIn id [] = ⊥
IsIn id (first ∷ rest) = (id ≡ first) ⊎ IsIn id rest

-- What the code relies on: a list of the sandboxes with given labels has each of them but those that
-- are gone, a sandbox whose removal succeeds is gone, and nothing that deletes sandboxes brings one
-- back.
pub record SandboxLaws {W : Type 0} (cri : ContainerRuntime W) : Type 1 where
  pub Carries : Dict String → String → Type 0
  pub Gone : String → W → Type 0
  pub listed :
      (labels : Dict String) (id : String)
      → Carries labels id
      → Ensures
          (λ w. Unit)
          (cri.list_pod_sandbox labels)
          (λ items w. Gone id w ⊎ IsIn id (map (λ sandbox. sandbox.id) items))
  pub removed : (id : String) → Ensures (λ w. Unit) (cri.remove_pod_sandbox id) (λ u w. Gone id w)
  pub connection_keeps : (id : String) → Keeps (Gone id) cri.connection
  pub list_keeps :
      (id : String) (labels : Dict String) → Keeps (Gone id) (cri.list_pod_sandbox labels)
  pub stop_keeps : (id other : String) → Keeps (Gone id) (cri.stop_pod_sandbox other)
  pub remove_keeps : (id other : String) → Keeps (Gone id) (cri.remove_pod_sandbox other)

module _ {W : Type 0} (cri : ContainerRuntime W) (laws : SandboxLaws cri) where
  abbrev pub GoneFrom : String → Host W → Type 0
  GoneFrom id host = laws.Gone id host.world

  abbrev Always : Host W → Type 0
  Always host = Unit

  client-Keeps : (id : String) → Keeps (GoneFrom id) (cri_runtime cri)
  client-Keeps id = cri_runtime-Keeps cri (laws.Gone id) (laws.connection_keeps id)

  delete_pod_with_id-Keeps :
      (id other : String) → Keeps (GoneFrom id) (delete_pod_with_id cri other)
  unfolding delete_pod_with_id
  delete_pod_with_id-Keeps id other =
      >>=-Keeps (GoneFrom id) (cri_runtime cri) _ (client-Keeps id) λ u.
        >>=-Keeps (GoneFrom id) (call (cri.stop_pod_sandbox other)) _
          (call-Keeps (laws.Gone id) (cri.stop_pod_sandbox other) (laws.stop_keeps id other))
          λ u. call-Keeps (laws.Gone id) (cri.remove_pod_sandbox other) (laws.remove_keeps id other)

  delete_loop-Keeps : (id : String) (l : List String) → Keeps (GoneFrom id) (delete_loop cri l)
  unfolding delete_loop
  delete_loop-Keeps id [] = λ host p. p
  delete_loop-Keeps id (other ∷ l) =
      >>=-Keeps (GoneFrom id) (delete_pod_with_id cri other) _ (delete_pod_with_id-Keeps id other)
        λ u. delete_loop-Keeps id l

  pub delete_pod_with_id-Gone :
      (id : String) → Ensures Always (delete_pod_with_id cri id) (λ u. GoneFrom id)
  unfolding delete_pod_with_id
  delete_pod_with_id-Gone id =
      >>=-Ensures Always (λ u. Always) (λ u. GoneFrom id) (cri_runtime cri) _ (λ host p u e. tt)
        λ u.
          >>=-Ensures Always (λ u. Always) (λ u. GoneFrom id) (call (cri.stop_pod_sandbox id)) _
            (λ host p u e. tt)
            λ u.
              call-ensures (λ w. Unit) (λ u. laws.Gone id) (cri.remove_pod_sandbox id)
                (laws.removed id)

  -- The loop deletes what it is given, and what is gone before stays gone.
  delete_loop-Gone :
      (id : String) (l : List String)
      → Ensures (λ host. GoneFrom id host ⊎ IsIn id l) (delete_loop cri l) (λ u. GoneFrom id)
  unfolding delete_loop
  delete_loop-Gone id [] = λ host p u e. elim p [ inl g ↦ g | inr i ↦ absurd i ]
  delete_loop-Gone id (other ∷ l) =
      >>=-Ensures (λ host. GoneFrom id host ⊎ IsIn id (other ∷ l))
        (λ u host. GoneFrom id host ⊎ IsIn id l) (λ u. GoneFrom id) (delete_pod_with_id cri other) _
        (λ host p u e. elim p [
          | inl g ↦ inl (delete_pod_with_id-Keeps id other host g)
          | inr (inl i) ↦ inl (
              subst (λ z. GoneFrom z (delete_pod_with_id cri other host).1) (sym i)
                (delete_pod_with_id-Gone other host tt u e))
          | inr (inr i) ↦ inr i
        ])
        λ u. delete_loop-Gone id l

  sandbox_ids-Gone :
      (id n c k : String) (r : Result (List PodSandbox) × Host W)
      → ((items : List PodSandbox)
          → r.0 ≡ ok items
          → GoneFrom id r.1 ⊎ IsIn id (map (λ sandbox. sandbox.id) items))
      → (ids : List String) → (sandbox_ids n c k r).0 ≡ ok ids
      → GoneFrom id (sandbox_ids n c k r).1 ⊎ IsIn id ids
  sandbox_ids-Gone id n c k (ok items, w) h ids e =
      subst (λ z. GoneFrom id w ⊎ IsIn id z) (ok_inj e) (h items refl)
  sandbox_ids-Gone id n c k (err x, w) h ids e = absurd (err_ne_ok _ ids e)

  pub list_labelled-Gone :
      (id n c k : String) (labels : Dict String)
      → laws.Carries labels id
      → Ensures Always (list_labelled cri n c k labels) (λ ids host. GoneFrom id host ⊎ IsIn id ids)
  unfolding list_labelled
  list_labelled-Gone id n c k labels carries =
      >>=-Ensures Always (λ u. Always) (λ ids host. GoneFrom id host ⊎ IsIn id ids)
        (cri_runtime cri) _ (λ host p u e. tt)
        λ u host p. sandbox_ids-Gone id n c k (call (cri.list_pod_sandbox labels) host) (
          call-ensures (λ w. Unit)
            (λ items w. laws.Gone id w ⊎ IsIn id (map (λ sandbox. sandbox.id) items))
            (cri.list_pod_sandbox labels) (laws.listed labels id carries) host tt)

  pub delete_labelled-Gone :
      (id n c k : String) (labels : Dict String)
      → laws.Carries labels id
      → Ensures Always
          (list_labelled cri n c k labels >>= λ l. delete_loop cri l)
          (λ u. GoneFrom id)
  delete_labelled-Gone id n c k labels carries =
      >>=-Ensures Always (λ ids host. GoneFrom id host ⊎ IsIn id ids) (λ u. GoneFrom id)
        (list_labelled cri n c k labels) _ (list_labelled-Gone id n c k labels carries)
        λ ids. delete_loop-Gone id ids

  -- If DeletePods succeeds, no pod sandbox is left that carries the labels of the component: where
  -- the runtime lists every sandbox with given labels that is not gone, a removal that succeeds makes
  -- its sandbox gone, and none of the calls of a deletion brings one back.
  pub delete_pods-Gone :
      (id cluster_namespace cluster_name component_name : String)
      → laws.Carries (cluster_labels cluster_namespace cluster_name component_name) id
      → (host : Host W)
      → (delete_pods cri cluster_namespace cluster_name component_name host).0 ≡ ok tt
      → laws.Gone id (delete_pods cri cluster_namespace cluster_name component_name host).1.world
  unfolding delete_pods list_all_pods
  delete_pods-Gone id n c k carries host =
      delete_labelled-Gone id n c k (cluster_labels n c k) carries host tt tt

  pub delete_pod-Gone :
      (id n c k pod_name : String)
      → laws.Carries (pod_labels n c k pod_name) id
      → (host : Host W) → (delete_pod cri n c k pod_name host).0 ≡ ok tt
      → GoneFrom id (delete_pod cri n c k pod_name host).1
  unfolding delete_pod list_pods
  delete_pod-Gone id n c k pod_name carries host =
      delete_labelled-Gone id n c k (pod_labels n c k pod_name) carries host tt tt

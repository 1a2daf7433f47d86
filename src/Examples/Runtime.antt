-- ===== src/Examples/Runtime.antt =====
-- A container runtime that runs in memory, for the tests of the pods of a hypervisor: each of its
-- sandboxes matches every label, a container's id is made of its sandbox and its name, and the
-- containers exit when time passes.
use oneinfra.Base.{
  ℕ, suc, String, ◌≡◌, refl, sym, ◌∙◌, subst, ◌≢◌, ◌⊎◌, inl, inr, Bool, true, false, List, [], ◌∷◌,
  map, arith, ◌==◌, eq_iff, eq_refl, eqb, if◌then◌else◌, Bool-cases, concat,
}
use oneinfra.Base.Actions.{err_ne_ok}
use oneinfra.Base.Errors.{errorf, err, Result, ok, ok_inj}
use oneinfra.Infra.Pods.{
  container_exited, container_created, PodSandbox, container_running, sandbox_ready,
  CreateContainerRequest, ContainerState, ContainerRuntime,
}
use oneinfra.Infra.Pods.Images.{ImageLaws}
use oneinfra.Infra.Pods.Deleting.{IsIn, SandboxLaws}
use oneinfra.Infra.Pods.Ensuring.Repair.{GoneLaws}
use oneinfra.Infra.Pods.Ensuring.Creation.{ContainerLaws}

pub record Node : Type 0 where
  pub images : List String
  pub sandboxes : List String
  pub containers : List (String × String)
  pub started : List String
  pub clock : ℕ

abbrev pub stands : String → List String → Bool
stands name [] = false
stands name (first ∷ rest) = if first == name then true else stands name rest

abbrev pub without : String → List String → List String
without name [] = []
without name (first ∷ rest) = if first == name then without name rest else first ∷ without name rest

abbrev pub state_at : Node → String → ContainerState
state_at node id =
    if eqb node.clock 0
    then if stands id node.started then container_running else container_created
    else container_exited

abbrev pub make_in : Bool → CreateContainerRequest → Node → Result String × Node
make_in false request node = (err (errorf "no such sandbox" []), node)
make_in true request node =
    let id : String = concat request.pod_sandbox_id (concat "/" request.name) in
    (ok id, record node { containers = (id, request.name) ∷ node.containers })

abbrev pub in_memory : ContainerRuntime Node
in_memory = record {
  connection = λ node. (ok tt, node);
  image_status = λ image node. (ok (stands image node.images), node);
  pull_image = λ image node. (ok tt, record node { images = image ∷ node.images });
  list_pod_sandbox = λ labels node.
      (ok (map (λ id. record { id = id; state = sandbox_ready }) node.sandboxes), node);
  run_pod_sandbox = λ config node. (
    ok (concat "sandbox-" config.name),
    record node { sandboxes = concat "sandbox-" config.name ∷ node.sandboxes },
  );
  stop_pod_sandbox = λ id node. (ok tt, node);
  remove_pod_sandbox = λ id node. (ok tt, record node { sandboxes = without id node.sandboxes });
  list_containers = λ id node. (
    ok (map (λ c. record { id = c.0; name = c.1; state = state_at node c.0 }) node.containers),
    node,
  );
  container_status = λ id node. (ok (state_at node id), node);
  create_container =
      λ request node. make_in (stands request.pod_sandbox_id node.sandboxes) request node;
  start_container = λ id node. (ok tt, record node { started = id ∷ node.started });
  remove_container = λ id node. (ok tt, node);
  sleep = λ node. record node { clock = suc node.clock };
}

pub stands-without_self : (name : String) (l : List String) → stands name (without name l) ≡ false
stands-without_self name [] = refl
stands-without_self name (first ∷ l) = ground (arith, stands-without_self name l)

pub stands-without :
    (name other : String) (l : List String)
    → stands name l ≡ false
    → stands name (without other l) ≡ false
stands-without name other [] h = refl
stands-without name other (first ∷ l) h = ground (arith, stands-without name other l)

pub stands-head : (name : String) (l : List String) → stands name (name ∷ l) ≡ true
stands-head name l = ground (arith, eq_refl name)

pub stands-tail :
    (first name : String) (l : List String) → stands name l ≡ true → stands name (first ∷ l) ≡ true
stands-tail first name l h = ground (arith, h)

abbrev pub in_memory_image_laws : ImageLaws in_memory
in_memory_image_laws = record {
  Present = λ i node. stands i node.images ≡ true;
  reported = λ i node p b e h. ok_inj e ∙ h;
  pulled = λ i node p b e. stands-head i node.images;
  connection_keeps = λ j node p. p;
  status_keeps = λ i j node p. p;
  pull_keeps = λ i j node p. stands-tail i j node.images p;
}

pub stands-IsIn :
    (id : String) (l : List String)
    → (stands id l ≡ false)
      ⊎ IsIn id
          (map (λ (s : PodSandbox). s.id) (map (λ i. record { id = i; state = sandbox_ready }) l))
stands-IsIn id [] = inl refl
stands-IsIn id (first ∷ l) = elim (Bool-cases (first == id)) [
  | inl e ↦ inr (inl (sym ((eq_iff first id).0 e)))
  | inr e ↦ elim (stands-IsIn id l) [ inl h ↦ inl (ground (arith, e, h)) | inr h ↦ inr (inr h) ]
]

abbrev pub in_memory_sandbox_laws : SandboxLaws in_memory
in_memory_sandbox_laws = record {
  Carries = λ labels id. Unit;
  Gone = λ id node. stands id node.sandboxes ≡ false;
  listed = λ labels id carries node p items e.
      subst (λ z. (stands id node.sandboxes ≡ false) ⊎ IsIn id (map (λ (s : PodSandbox). s.id) z))
        (ok_inj e) (stands-IsIn id node.sandboxes);
  removed = λ id node p u e. stands-without_self id node.sandboxes;
  connection_keeps = λ id node p. p;
  list_keeps = λ id labels node p. p;
  stop_keeps = λ id other node p. p;
  remove_keeps = λ id other node p. stands-without id other node.sandboxes p;
}

pub refused :
    (b : Bool) (request : CreateContainerRequest) (node : Node)
    → b ≡ false
    → (i : String) → (make_in b request node).0 ≢ ok i
refused true request node h i e = absurd (ground (arith, h))
refused false request node h i e = err_ne_ok _ i e

abbrev pub in_memory_gone_laws : GoneLaws in_memory
in_memory_gone_laws = record {
  sandboxes = in_memory_sandbox_laws;
  create_refused = λ request node p i e.
      refused (stands request.pod_sandbox_id node.sandboxes) request node p i e;
  remove_keeps = λ id container_id node p. p;
}

pub made_id :
    (b : Bool) (request : CreateContainerRequest) (node : Node) (i : String)
    → (make_in b request node).0 ≡ ok i
    → concat request.pod_sandbox_id (concat "/" request.name) ≡ i
made_id true request node i e = ok_inj e
made_id false request node i e = absurd (err_ne_ok _ i e)

abbrev pub in_memory_container_laws : ContainerLaws in_memory
in_memory_container_laws = record {
  Made = λ s n i node. concat s (concat "/" n) ≡ i;
  Runs = λ s n node. stands (concat s (concat "/" n)) node.started ≡ true;
  created =
      λ request node p i e. made_id (stands request.pod_sandbox_id node.sandboxes) request node i e;
  create_keeps = λ request s n i node p. p;
  started = λ s n i node p u e.
      subst (λ z. stands (concat s (concat "/" n)) (z ∷ node.started) ≡ true) p
        (stands-head (concat s (concat "/" n)) node.started);
  start_keeps_made = λ s n i j node p. p;
  start_keeps_runs = λ s n j node p. stands-tail j (concat s (concat "/" n)) node.started p;
}

-- ===== src/Components/Ports/Laws.antt =====
-- What PreReconcile of internal/pkg/component/components leaves in the component: its host ports.
use oneinfra.Components.Store.{find_component-written, or_panic-ok}
use oneinfra.Components.Ports.{
  api_server_host_port_name, etcd_peer_host_port_name, etcd_client_host_port_name,
  assigned_or_error, control_plane_pre_reconcile,
}
use oneinfra.Base.{
  ℕ, String, ◌≡◌, refl, sym, ap, ◌∙◌, subst, true, Option, none, some, List, [], ◌∷◌, arith, ◌==◌,
  eq_refl, All, All-mono,
}
use oneinfra.Base.Errors.{Exec, ok_inj, err, ok, Result}
use oneinfra.Base.Actions.{pure, ◌>>◌, ◌>>=◌, choose-Ensures, >>=-Ensures, Ensures, err_ne_ok}
use oneinfra.Dict
use oneinfra.Dict.{Dict, has-insert, has-lookup-some}
use oneinfra.Component.{request_port, Component, record_port, request_missing_port}
use oneinfra.Components.{
  component_hypervisor, request_own_port, request_port_at, request_port_of, or_panic,
  current_component, written, Hypervisor, Stage, Inquirer, find_component,
}

-- A component that is changed in its host ports alone, and has lost none.
abbrev Kept : Component → Component → Type 0
Kept c c' =
    (c'.namespace ≡ c.namespace)
    × (c'.name ≡ c.name)
    × ((other : String)
        → Dict.has other c.allocated_host_ports ≡ true
        → Dict.has other c'.allocated_host_ports ≡ true)

record_port-Kept :
    (c : Component) (name : String) (r : Hypervisor × Result ℕ) → Kept c (record_port c name r).0.0
record_port-Kept c name (h, ok p) =
    (refl, refl, λ other e. ground (arith, e, has-insert name other p c.allocated_host_ports))
record_port-Kept c name (h, err x) = (refl, refl, λ other e. e)

record_port-has :
    (c : Component) (name : String) (r : Hypervisor × Result ℕ) (p : ℕ)
    → (record_port c name r).1 ≡ ok p
    → Dict.has name (record_port c name r).0.0.allocated_host_ports ≡ true
record_port-has c name (h, ok q) p e =
    ground (arith, has-insert name name q c.allocated_host_ports, eq_refl name)
record_port-has c name (h, err x) p e = absurd (err_ne_ok x p e)

request_missing_port-Kept :
    (o : Option ℕ) (c : Component) (h : Hypervisor) (name : String)
    → Kept c (request_missing_port o c h name).0.0
request_missing_port-Kept none c h name = record_port-Kept c name _
request_missing_port-Kept (some p) c h name = (refl, refl, λ other e. e)

request_missing_port-has :
    (o : Option ℕ) (c : Component) (h : Hypervisor) (name : String)
    → Dict.lookup name c.allocated_host_ports ≡ o
    → (p : ℕ) → (request_missing_port o c h name).1 ≡ ok p
    → Dict.has name (request_missing_port o c h name).0.0.allocated_host_ports ≡ true
request_missing_port-has none c h name l p e = record_port-has c name _ p e
request_missing_port-has (some q) c h name l p e = has-lookup-some name q c.allocated_host_ports l

-- A component with host ports under these names.
abbrev pub Holds : List String → Component → Type 0
Holds names c = All (λ name. Dict.has name c.allocated_host_ports ≡ true) names

module _ {W : Type 0} (inquirer : Inquirer) where
  -- The component in reconciliation has them.
  abbrev pub StageHolds : List String → Stage W → Type 0
  StageHolds names stage =
      (c : Component) × (find_component inquirer.namespace inquirer.name stage.components ≡ some c)
      × Holds names c

  abbrev IsCurrent : List String → Component → Stage W → Type 0
  IsCurrent names c stage =
      (find_component inquirer.namespace inquirer.name stage.components ≡ some c) × Holds names c

  written-StageHolds :
      (names : List String) (name : String) (c : Component) (stage : Stage W)
      → IsCurrent names c stage
      → (r : (Component × Hypervisor) × Result ℕ) → Kept c r.0.0
      → (p : ℕ) → (written stage r).0 ≡ ok p
      → (r.1 ≡ ok p → Dict.has name r.0.0.allocated_host_ports ≡ true)
      → StageHolds (name ∷ names) (written stage r).1
  written-StageHolds names name c stage (f, holds) ((c', h), r) (same_namespace, same_name, keeps) p
        e has =
      (
        c',
        find_component-written inquirer.namespace inquirer.name stage.components c c' f
            same_namespace same_name,
        (has e, All-mono _ _ names keeps holds),
      )

  current_component-IsCurrent :
      (names : List String)
      → Ensures (StageHolds names) (current_component inquirer) (IsCurrent names)
  unfolding current_component
  current_component-IsCurrent names stage (c, f, holds) a e =
      let same : c ≡ a = ok_inj (sym (ap or_panic f) ∙ e) in
      (f ∙ ap some same, subst (Holds names) same holds)

  request_port_of-StageHolds :
      (names : List String) (name : String) (c : Component) (h : Hypervisor)
      → Ensures (IsCurrent names c) (request_port_of c h name) (λ p. StageHolds (name ∷ names))
  unfolding request_port_of request_port
  request_port_of-StageHolds names name c h stage holds p e =
      let o = Dict.lookup name c.allocated_host_ports in
      written-StageHolds names name c stage holds (request_missing_port o c h name)
        (request_missing_port-Kept o c h name) p e (request_missing_port-has o c h name refl p)

  request_port_at-StageHolds :
      (names : List String) (name : String) (c : Component) (o : Option Hypervisor)
      → Ensures (IsCurrent names c) (request_port_at c name o) (λ p. StageHolds (name ∷ names))
  request_port_at-StageHolds names name c none stage (f, holds) p e = (
    c,
    f,
    (
      has-lookup-some name p c.allocated_host_ports
          (or_panic-ok (Dict.lookup name c.allocated_host_ports) p e),
      holds,
    ),
  )
  request_port_at-StageHolds names name c (some h) stage holds p e =
      request_port_of-StageHolds names name c h stage holds p e

  request_own_port-StageHolds :
      (names : List String) (name : String)
      → Ensures (StageHolds names) (request_own_port inquirer name) (λ p. StageHolds (name ∷ names))
  unfolding request_own_port
  request_own_port-StageHolds names name =
      >>=-Ensures (StageHolds names) (IsCurrent names) (λ p. StageHolds (name ∷ names))
        (current_component inquirer) _ (current_component-IsCurrent names)
        λ c stage. request_port_at-StageHolds names name c (component_hypervisor c stage) stage

  abbrev Always : Stage W → Type 0
  Always stage = Unit

  -- Whatever follows the test for a hypervisor meets the component in the store.
  assigned-StageHolds :
      Ensures Always
        (current_component inquirer >>= assigned_or_error inquirer)
        (λ u. StageHolds [])
  unfolding current_component
  assigned-StageHolds =
      >>=-Ensures Always (IsCurrent []) (λ u. StageHolds []) (current_component inquirer)
        (assigned_or_error inquirer)
        (λ stage p c e.
          (or_panic-ok (find_component inquirer.namespace inquirer.name stage.components) c e, tt))
        λ c.
          choose-Ensures (IsCurrent [] c) (λ u. StageHolds []) (c.hypervisor_name == "") _ _
            (λ h stage p u e. absurd (err_ne_ok _ u e)) λ h stage p u e. (c, p.0, p.1)

  then_port :
      {A : Type 0} (m : Exec (Stage W) A) (names : List String) (name : String)
      → Ensures Always m (λ a. StageHolds names)
      → Ensures Always (m >> request_own_port inquirer name) (λ p. StageHolds (name ∷ names))
  then_port m names name holds =
      >>=-Ensures Always (λ a. StageHolds names) (λ p. StageHolds (name ∷ names)) m _ holds
        λ a. request_own_port-StageHolds names name

  -- If PreReconcile of a control plane component succeeds, the component has a host port for its API
  -- server, and both of etcd's.
  pub control_plane_pre_reconcile-Holds :
      (stage : Stage W)
      → (control_plane_pre_reconcile inquirer stage).0 ≡ ok tt
      → (c : Component) × (find_component inquirer.namespace inquirer.name
            (control_plane_pre_reconcile inquirer stage).1.components
          ≡ some c)
        × Holds
            (etcd_client_host_port_name ∷ etcd_peer_host_port_name ∷ api_server_host_port_name ∷ [])
            c
  unfolding control_plane_pre_reconcile
  control_plane_pre_reconcile-Holds stage e =
      let one = api_server_host_port_name ∷ [] in
      let two = etcd_peer_host_port_name ∷ one in
      let three = etcd_client_host_port_name ∷ two in
      let m = current_component inquirer >>= assigned_or_error inquirer in
      let m_one = m >> request_own_port inquirer api_server_host_port_name in
      let m_two = m_one >> request_own_port inquirer etcd_peer_host_port_name in
      let m_three = m_two >> request_own_port inquirer etcd_client_host_port_name in
      >>=-Ensures Always (λ p. StageHolds three) (λ u. StageHolds three) m_three (λ p. pure tt)
        (then_port m_two two etcd_client_host_port_name (
          then_port m_one one etcd_peer_host_port_name
            (then_port m [] api_server_host_port_name assigned-StageHolds)))
        (λ p s holds u e. holds) stage tt tt e

-- ===== src/Components/Ports/Freed.antt =====
-- What the release of host ports in internal/pkg/component/components leaves in the component.
use oneinfra.Components.Ports.{freed, free_own_port}
use oneinfra.Base.{
  ℕ, String, ◌≡◌, refl, sym, ap, ◌∙◌, subst, Option, none, some, List, ◌∷◌, arith, eq_refl, All,
  All-mono,
}
use oneinfra.Base.Errors.{ok_inj, ok, Error}
use oneinfra.Base.Actions.{>>=-Ensures, Ensures, err_ne_ok}
use oneinfra.Dict
use oneinfra.Dict.{Dict, lookup-delete}
use oneinfra.Component.{Component, free_port, forget_port, free_known_port}
use oneinfra.Components.{
  or_panic, current_hypervisor, current_component, write_back, Hypervisor, Stage, Inquirer,
  find_component,
}
use oneinfra.Components.Store.{find_component-written}

-- A component without a host port under any of these names.
abbrev pub Lacks : List String → Component → Type 0
Lacks names c = All (λ name. Dict.lookup name c.allocated_host_ports ≡ none) names

-- A component that is changed in its host ports alone, and has got none.
abbrev Shrunk : Component → Component → Type 0
Shrunk c c' =
    (c'.namespace ≡ c.namespace)
    × (c'.name ≡ c.name)
    × ((other : String)
        → Dict.lookup other c.allocated_host_ports ≡ none
        → Dict.lookup other c'.allocated_host_ports ≡ none)

forget_port-Shrunk :
    (c : Component) (name : String) (r : Hypervisor × Option Error)
    → Shrunk c (forget_port c name r).0.0
forget_port-Shrunk c name (h, none) =
    (refl, refl, λ other e. ground (arith, e, lookup-delete name other c.allocated_host_ports))
forget_port-Shrunk c name (h, some x) = (refl, refl, λ other e. e)

forget_port-none :
    (c : Component) (name : String) (r : Hypervisor × Option Error)
    → (forget_port c name r).1 ≡ none
    → Dict.lookup name (forget_port c name r).0.0.allocated_host_ports ≡ none
forget_port-none c name (h, none) e =
    ground (arith, lookup-delete name name c.allocated_host_ports, eq_refl name)
forget_port-none c name (h, some x) e = absurd (ground (arith, e))

free_known_port-Shrunk :
    (o : Option ℕ) (c : Component) (h : Hypervisor) (name : String)
    → Shrunk c (free_known_port o c h name).0.0
free_known_port-Shrunk none c h name = (refl, refl, λ other e. e)
free_known_port-Shrunk (some p) c h name = forget_port-Shrunk c name _

free_known_port-none :
    (o : Option ℕ) (c : Component) (h : Hypervisor) (name : String)
    → Dict.lookup name c.allocated_host_ports ≡ o
    → (free_known_port o c h name).1 ≡ none
    → Dict.lookup name (free_known_port o c h name).0.0.allocated_host_ports ≡ none
free_known_port-none none c h name l e = l
free_known_port-none (some p) c h name l e = forget_port-none c name _ e

module _ {W : Type 0} (inquirer : Inquirer) where
  -- The component in reconciliation, and what it lacks.
  abbrev IsCurrent : List String → Component → Stage W → Type 0
  IsCurrent names c stage =
      (find_component inquirer.namespace inquirer.name stage.components ≡ some c) × Lacks names c

  abbrev pub StageLacks : List String → Stage W → Type 0
  StageLacks names stage =
      (c : Component) × (find_component inquirer.namespace inquirer.name stage.components ≡ some c)
      × Lacks names c

  written_back :
      (names : List String) (c c' : Component) (h : Hypervisor) (stage : Stage W)
      → IsCurrent names c stage
      → Shrunk c c'
      → IsCurrent names c' (write_back stage c' h)
  written_back names c c' h stage (f, lacks) (same_namespace, same_name, keeps) = (
    find_component-written inquirer.namespace inquirer.name stage.components c c' f same_namespace
        same_name,
    All-mono _ _ names keeps lacks,
  )

  freed-StageLacks :
      (names : List String) (name : String) (c : Component) (stage : Stage W)
      → IsCurrent names c stage
      → (r : (Component × Hypervisor) × Option Error) → Shrunk c r.0.0
      → (r.1 ≡ none → Dict.lookup name r.0.0.allocated_host_ports ≡ none)
      → (u : Unit {0}) → (freed inquirer stage name r).0 ≡ ok u
      → StageLacks (name ∷ names) (freed inquirer stage name r).1
  freed-StageLacks names name c stage p ((c', h), none) kept gone u e =
      let (f, lacks) = written_back names c c' h stage p kept in (c', f, (gone refl, lacks))
  freed-StageLacks names name c stage p ((c', h), some x) kept gone u e = absurd (err_ne_ok _ u e)

  pub free_own_port-StageLacks :
      (names : List String) (name : String)
      → Ensures (StageLacks names) (free_own_port inquirer name) (λ u. StageLacks (name ∷ names))
  unfolding free_own_port current_component current_hypervisor free_port
  free_own_port-StageLacks names name =
      >>=-Ensures (StageLacks names) (IsCurrent names) (λ u. StageLacks (name ∷ names))
        (current_component inquirer) _
        (λ stage (c, f, lacks) a e.
          let same : c ≡ a = ok_inj (sym (ap or_panic f) ∙ e) in
          (f ∙ ap some same, subst (Lacks names) same lacks))
        λ c.
          >>=-Ensures (IsCurrent names c) (λ h. IsCurrent names c) (λ u. StageLacks (name ∷ names))
            (current_hypervisor inquirer c) _ (λ stage p h e. p)
            λ h stage p u e.
              let o = Dict.lookup name c.allocated_host_ports in
              freed-StageLacks names name c stage p (free_known_port o c h name)
                (free_known_port-Shrunk o c h name) (free_known_port-none o c h name refl) u e

-- ===== src/Components/World.antt =====
-- The parts of internal/pkg/component/components that work on the store alone keep what lies beyond
-- it, and a call beyond the store does to it what the call itself does.
use oneinfra.Base.{String, ◌≡◌}
use oneinfra.Base.Errors.{ok, Exec, Result}
use oneinfra.Base.Actions.{>>=-Keeps, Keeps, Ensures}
use oneinfra.Component.{Component, request_port}
use oneinfra.Components.{
  written, Hypervisor, after_world, Stage, Inquirer, beyond, request_own_address, request_port_of,
  current_component, current_hypervisor,
}

module _ {W : Type 0} where
  -- A property of what lies beyond the store.
  abbrev pub Beyond : (W → Type 0) → Stage W → Type 0
  Beyond P stage = P stage.world

  after_world-Keeps :
      {A : Type 0} (P : W → Type 0) (stage : Stage W) (r : Result A × W)
      → P r.1
      → Beyond P (after_world stage r).1
  after_world-Keeps P stage (r, w) p = p

  pub beyond-Keeps :
      {A : Type 0} (P : W → Type 0) (op : Exec W A) → Keeps P op → Keeps (Beyond P) (beyond op)
  beyond-Keeps P op keeps stage p = after_world-Keeps P stage (op stage.world) (keeps stage.world p)

  after_world-Ensures :
      {A : Type 0} (Q : A → W → Type 0) (stage : Stage W) (r : Result A × W)
      → ((a : A) → r.0 ≡ ok a → Q a r.1)
      → (a : A) → (after_world stage r).0 ≡ ok a
      → Beyond (Q a) (after_world stage r).1
  after_world-Ensures Q stage (r, w) q = q

  pub beyond-Ensures :
      {A : Type 0} (P : W → Type 0) (Q : A → W → Type 0) (op : Exec W A)
      → Ensures P op Q
      → Ensures (Beyond P) (beyond op) (λ a. Beyond (Q a))
  beyond-Ensures P Q op ensures stage p =
      after_world-Ensures Q stage (op stage.world) (ensures stage.world p)

  written-Keeps :
      {A : Type 0} (P : W → Type 0) (stage : Stage W) (r : (Component × Hypervisor) × Result A)
      → Beyond P stage
      → Beyond P (written stage r).1
  written-Keeps P stage ((component, hypervisor), r) p = p

  pub request_port_of-Keeps :
      (P : W → Type 0) (component : Component) (hypervisor : Hypervisor) (name : String)
      → Keeps (Beyond P) (request_port_of component hypervisor name)
  unfolding request_port_of
  request_port_of-Keeps P component hypervisor name stage p =
      written-Keeps P stage (request_port component hypervisor name) p

  pub request_own_address-Keeps :
      (P : W → Type 0) (inquirer : Inquirer) (name : String)
      → Keeps (Beyond P) (request_own_address inquirer name)
  unfolding request_own_address current_component current_hypervisor
  request_own_address-Keeps P inquirer name =
      >>=-Keeps (Beyond P) (current_component inquirer) _ (λ stage p. p)
        λ component.
          >>=-Keeps (Beyond P) (current_hypervisor inquirer component) _ (λ stage p. p)
            λ hypervisor.
              >>=-Keeps (Beyond P) (request_port_of component hypervisor name) _
                (request_port_of-Keeps P component hypervisor name) λ port stage p. p

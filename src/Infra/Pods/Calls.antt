-- ===== src/Infra/Pods/Calls.antt =====
-- What the calls through the cached clients of internal/pkg/infra/hypervisor.go keep of the state
-- behind them, and what they ensure of it.
use oneinfra.Base.{◌≡◌}
use oneinfra.Base.Errors.{ok, Result, Exec}
use oneinfra.Base.Actions.{choose-Keeps, pure, Ensures, >>=-Keeps, Keeps}
use oneinfra.Infra.Pods.{after_call, ContainerRuntime, Host, call, cri_image, cri_runtime}

module _ {W : Type 0} where
  -- A property of the state behind the clients.
  abbrev pub Behind : (W → Type 0) → Host W → Type 0
  Behind P host = P host.world

  after_call-Keeps :
      {A : Type 0} (P : W → Type 0) (host : Host W) (r : Result A × W)
      → P r.1
      → Behind P (after_call host r).1
  after_call-Keeps P host (r, w) p = p

  pub call-Keeps :
      {A : Type 0} (P : W → Type 0) (op : Exec W A) → Keeps P op → Keeps (Behind P) (call op)
  call-Keeps P op keeps host p = after_call-Keeps P host (op host.world) (keeps host.world p)

  after_call-ensures :
      {A : Type 0} (Q : A → W → Type 0) (host : Host W) (r : Result A × W)
      → ((a : A) → r.0 ≡ ok a → Q a r.1)
      → (a : A) → (after_call host r).0 ≡ ok a
      → Behind (Q a) (after_call host r).1
  after_call-ensures Q host (r, w) q = q

  pub call-ensures :
      {A : Type 0} (P : W → Type 0) (Q : A → W → Type 0) (op : Exec W A)
      → Ensures P op Q
      → Ensures (Behind P) (call op) (λ a. Behind (Q a))
  call-ensures P Q op ensures host p =
      after_call-ensures Q host (op host.world) (ensures host.world p)

module _ {W : Type 0} (cri : ContainerRuntime W) where
  pub cri_image-Keeps : (P : W → Type 0) → Keeps P cri.connection → Keeps (Behind P) (cri_image cri)
  unfolding cri_image
  cri_image-Keeps P keeps host =
      choose-Keeps (Behind P) host.has_image_client (pure tt) _ (λ h q. q)
        (>>=-Keeps (Behind P) (call cri.connection) _ (call-Keeps P cri.connection keeps)
          (λ u h q. q))
        host

  pub cri_runtime-Keeps :
      (P : W → Type 0) → Keeps P cri.connection → Keeps (Behind P) (cri_runtime cri)
  unfolding cri_runtime
  cri_runtime-Keeps P keeps host =
      choose-Keeps (Behind P) host.has_runtime_client (pure tt) _ (λ h q. q)
        (>>=-Keeps (Behind P) (call cri.connection) _ (call-Keeps P cri.connection keeps)
          (λ u h q. q))
        host

-- ===== src/Components/Ports.antt =====
-- PreReconcile of internal/pkg/component/components/control_plane.go and control_plane_ingress.go,
-- and the release of host ports in what stops a component.
pub mod Laws
pub mod Freed
use oneinfra.Base.{String, Bool, not, Option, none, some, [], ◌∷◌, ◌==◌}
use oneinfra.Base.Errors.{wrap, err, ok, errorf, Error, Exec, Result}
use oneinfra.Base.Actions.{pure, ◌>>=◌, ◌>>◌, raise, choose}
use oneinfra.Component.{Component, free_port}
use oneinfra.Component.Names.{
  api_server_host_port_name, etcd_peer_host_port_name, etcd_client_host_port_name,
  wireguard_host_port_name,
}
use oneinfra.Components.{
  Hypervisor, Stage, Inquirer, request_own_port, current_component, current_hypervisor, write_back,
}

module _ {W : Type 0} (inquirer : Inquirer) where
  -- The test of PreReconcile that a hypervisor is assigned.
  abbrev pub assigned_or_error : Component → Exec (Stage W) Unit
  assigned_or_error component =
      choose (component.hypervisor_name == "")
        (raise (
          errorf "could not pre-reconcile component %q; no hypervisor assigned yet"
            (component.name ∷ [])))
        (pure tt)

  -- ControlPlane.PreReconcile
  unfoldable pub control_plane_pre_reconcile : Exec (Stage W) Unit
  unfolding current_component request_own_port
  control_plane_pre_reconcile =
      current_component inquirer
      >>= assigned_or_error
      >> request_own_port inquirer api_server_host_port_name
      >> request_own_port inquirer etcd_peer_host_port_name
      >> request_own_port inquirer etcd_client_host_port_name
      >> pure tt

  -- ControlPlaneIngress.PreReconcile, with cluster.VPN.Enabled.
  unfoldable pub ingress_pre_reconcile : Bool → Exec (Stage W) Unit
  unfolding current_component request_own_port
  ingress_pre_reconcile vpn_enabled =
      current_component inquirer
      >>= assigned_or_error
      >> request_own_port inquirer api_server_host_port_name
      >> choose vpn_enabled (request_own_port inquirer wireguard_host_port_name >> pure tt)
          (pure tt)

  abbrev pub freed :
      Stage W → String → (Component × Hypervisor) × Option Error → Result (Unit {0}) × Stage W
  freed stage name ((component, hypervisor), none) = (ok tt, write_back stage component hypervisor)
  freed stage name ((component, hypervisor), some e) = (
    err (wrap e "could not free port %q for hypervisor %q" (name ∷ hypervisor.name ∷ [])),
    write_back stage component hypervisor,
  )

  -- if err := component.FreePort(hypervisor, name); err != nil { return errors.Wrapf(…) }
  unfoldable pub free_own_port : String → Exec (Stage W) Unit
  unfolding current_component current_hypervisor
  free_own_port name = do
    component ← current_component inquirer
    hypervisor ← current_hypervisor inquirer component
    λ stage. freed stage name (free_port component hypervisor name)

-- ===== src/Components/Etcd/Asking.antt =====
-- What the calls of internal/pkg/component/components/etcd.go that only ask keep of the members.
use oneinfra.Base.{ℕ, String, Bool, true, false, Option, none, some, List, [], ◌∷◌}
use oneinfra.Base.Errors.{ok, err, Result}
use oneinfra.Base.Actions.{>>=-Keeps, Keeps}
use oneinfra.Component.{control_plane_role, Component}
use oneinfra.Components.{
  component_hypervisor, request_port_of, ComponentList, request_own_address, cluster_components,
  Hypervisor, Stage, Inquirer,
}
use oneinfra.Components.World.{
  request_own_address-Keeps, request_port_of-Keeps, beyond-Keeps, Beyond,
}
use oneinfra.Components.Etcd.{
  client_endpoint_of, etcd_client_host_port_name, is_deleted, etcd_peer_host_port_name,
  add_endpoint, endpoint_of, client_endpoints_loop, etcd_client_endpoints, EtcdApi, etcd_client,
  etcd_peer_url,
}

module _ {W : Type 0} (etcd : EtcdApi W) (P : W → Type 0) where
  add_endpoint-Keeps :
      (endpoints : List String) (hypervisor : Hypervisor) (r : Result ℕ × Stage W)
      → Beyond P r.1
      → Beyond P (add_endpoint etcd endpoints hypervisor r).1
  add_endpoint-Keeps endpoints hypervisor (err e, stage) p = p
  add_endpoint-Keeps endpoints hypervisor (ok port, stage) p = p

  endpoint_of-Keeps :
      (name : String) (c : Component) (endpoints : List String) (h : Option Hypervisor)
      (stage : Stage W)
      → Beyond P stage
      → Beyond P (endpoint_of etcd name c endpoints h stage).1
  endpoint_of-Keeps name c endpoints none stage p = p
  endpoint_of-Keeps name c endpoints (some h) stage p =
      add_endpoint-Keeps endpoints h (request_port_of c h name stage)
        (request_port_of-Keeps P c h name stage p)

  client_endpoint_of-Keeps :
      (deleted : Bool) (c : Component) (endpoints : List String) (stage : Stage W)
      → Beyond P stage
      → Beyond P (client_endpoint_of etcd deleted c endpoints stage).1
  client_endpoint_of-Keeps true c endpoints stage p = p
  client_endpoint_of-Keeps false c endpoints stage p =
      endpoint_of-Keeps etcd_client_host_port_name c endpoints (component_hypervisor c stage) stage
        p

  client_endpoints_loop-Keeps :
      (endpoints : List String) (l : ComponentList) (stage : Stage W)
      → Beyond P stage
      → Beyond P (client_endpoints_loop etcd endpoints l stage).1
  unfolding client_endpoints_loop
  client_endpoints_loop-Keeps endpoints [] stage p = p
  client_endpoints_loop-Keeps endpoints (c ∷ l) stage p =
      let next = client_endpoint_of etcd (is_deleted c) c endpoints stage in
      client_endpoints_loop-Keeps next.0 l next.1
        (client_endpoint_of-Keeps (is_deleted c) c endpoints stage p)

  module _ (inquirer : Inquirer) where
    pub etcd_client_endpoints-Keeps :
        (stage : Stage W) → Beyond P stage → Beyond P (etcd_client_endpoints etcd inquirer stage).1
    unfolding etcd_client_endpoints
    etcd_client_endpoints-Keeps stage =
        client_endpoints_loop-Keeps [] (cluster_components inquirer control_plane_role stage) stage

    pub etcd_client-Keeps :
        ((endpoints : List String) → Keeps P (etcd.dial endpoints))
        → Keeps (Beyond P) (etcd_client etcd inquirer)
    unfolding etcd_client
    etcd_client-Keeps keeps stage p =
        let asked = etcd_client_endpoints etcd inquirer stage in
        beyond-Keeps P (etcd.dial asked.0) (keeps asked.0) asked.1
          (etcd_client_endpoints-Keeps stage p)

    pub etcd_peer_url-Keeps : Keeps (Beyond P) (etcd_peer_url etcd inquirer)
    unfolding etcd_peer_url
    etcd_peer_url-Keeps =
        >>=-Keeps (Beyond P) (request_own_address inquirer etcd_peer_host_port_name) _
          (request_own_address-Keeps P inquirer etcd_peer_host_port_name) λ own stage p. p

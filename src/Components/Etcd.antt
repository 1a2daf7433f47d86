-- ===== src/Components/Etcd.antt =====
-- The membership of etcd in internal/pkg/component/components/etcd.go. `dial` stands for
-- etcdClientWithEndpoints, which makes certificates and a client for some endpoints; the calls of
-- that client are parameters, on the state that it reaches. `https_url` is the text of a URL with
-- the scheme https, and `join_host_port` is net.JoinHostPort with the number of the port.
pub mod Asking
pub mod Pinned
pub mod OwnUrl
pub mod Voting
pub mod Membership
pub mod Removal
pub mod Rounds
use oneinfra.Base.{
  ℕ, String, Bool, true, false, Option, none, some, List, [], ◌∷◌, ◌++◌, map, ◌==◌, if◌then◌else◌,
}
use oneinfra.Base.Errors.{ok, err, Error, Exec, Result}
use oneinfra.Base.Actions.{pure, ◌>>=◌, raise}
use oneinfra.Dict
use mathlib.Core.Option
use oneinfra.Dict.{Dict}
use oneinfra.Component.{Component, control_plane_role}
use oneinfra.Component.Names.{etcd_peer_host_port_name, etcd_client_host_port_name}
use oneinfra.Component.Listing.{ComponentList}
use oneinfra.Infra.Hypervisor.{Hypervisor}
use oneinfra.Components.{
  Stage, Inquirer, beyond, request_own_address, request_port_of, component_hypervisor,
  cluster_components,
}

-- A member in the answer to MemberList.
pub record Member : Type 0 where
  pub id : ℕ
  pub name : String
  pub peer_urls : List String
  pub client_urls : List String
  pub is_learner : Bool

pub record EtcdApi (W : Type 0) : Type 0 where
  pub dial : List String → Exec W Unit
  pub member_list : Exec W (List Member)
  pub member_add_as_learner : List String → Exec W Unit
  pub member_promote : ℕ → Exec W Unit
  pub member_remove : ℕ → Exec W Unit
  pub is_deadline_exceeded : Error → Bool
  pub sleep : W → W
  pub join_host_port : String → ℕ → String
  pub https_url : String → String

-- reflect.DeepEqual([]string{peerURL}, etcdMember.PeerURLs)
abbrev pub has_sole_url : String → List String → Bool
has_sole_url peer_url (url ∷ []) = url == peer_url
has_sole_url peer_url _ = false

abbrev pub find_member : String → List Member → Option Member
find_member peer_url [] = none
find_member peer_url (member ∷ members) =
    if has_sole_url peer_url member.peer_urls then some member else find_member peer_url members

abbrev pub is_deleted : Component → Bool
is_deleted component = elim component.deletion_timestamp [ none ↦ false | some t ↦ true ]

module _ {W : Type 0} (etcd : EtcdApi W) where
  abbrev pub etcd_url : String → ℕ → String
  etcd_url ip_address port = etcd.https_url (etcd.join_host_port ip_address port)

  abbrev pub add_endpoint : List String → Hypervisor → Result ℕ × Stage W → List String × Stage W
  add_endpoint endpoints hypervisor (err e, stage) = (endpoints, stage)
  add_endpoint endpoints hypervisor (ok port, stage) =
      (endpoints ++ etcd_url hypervisor.ip_address port ∷ [], stage)

  -- One round of the loop for a component: no hypervisor, or no port, and it is passed over.
  abbrev pub endpoint_of :
      String → Component → List String → Option Hypervisor → Stage W → List String × Stage W
  endpoint_of port_name component endpoints none stage = (endpoints, stage)
  endpoint_of port_name component endpoints (some hypervisor) stage =
      add_endpoint endpoints hypervisor (request_port_of component hypervisor port_name stage)

  unfoldable pub peer_endpoints_loop : List String → ComponentList → Stage W → List String × Stage W
  unfolding request_port_of component_hypervisor
  peer_endpoints_loop endpoints [] stage = (endpoints, stage)
  peer_endpoints_loop endpoints (component ∷ components) stage =
      let (endpoints', stage') =
        endpoint_of etcd_peer_host_port_name component endpoints
          (component_hypervisor component stage) stage in
      peer_endpoints_loop endpoints' components stage'

  -- One round of the second loop: a component that is being deleted is passed over as well.
  abbrev pub client_endpoint_of : Bool → Component → List String → Stage W → List String × Stage W
  client_endpoint_of true component endpoints stage = (endpoints, stage)
  client_endpoint_of false component endpoints stage =
      endpoint_of etcd_client_host_port_name component endpoints
        (component_hypervisor component stage) stage

  unfoldable pub client_endpoints_loop :
      List String → ComponentList → Stage W → List String × Stage W
  unfolding request_port_of component_hypervisor
  client_endpoints_loop endpoints [] stage = (endpoints, stage)
  client_endpoints_loop endpoints (component ∷ components) stage =
      let (endpoints', stage') =
        client_endpoint_of (is_deleted component) component endpoints stage in
      client_endpoints_loop endpoints' components stage'

  module _ (inquirer : Inquirer) where
    unfoldable pub etcd_peer_endpoints : Stage W → List String × Stage W
    unfolding peer_endpoints_loop cluster_components
    etcd_peer_endpoints stage =
        peer_endpoints_loop [] (cluster_components inquirer control_plane_role stage) stage

    unfoldable pub etcd_client_endpoints : Stage W → List String × Stage W
    unfolding client_endpoints_loop cluster_components
    etcd_client_endpoints stage =
        client_endpoints_loop [] (cluster_components inquirer control_plane_role stage) stage

    unfoldable pub etcd_client : Exec (Stage W) Unit
    unfolding etcd_client_endpoints
    etcd_client stage =
        let (endpoints, stage') = etcd_client_endpoints stage in beyond (etcd.dial endpoints) stage'

    unfoldable pub etcd_peer_url : Exec (Stage W) String
    unfolding request_own_address
    etcd_peer_url = do
      own ← request_own_address inquirer etcd_peer_host_port_name
      pure (etcd_url own.0 own.1)

    abbrev pub learner_of : Option Member → Bool
    learner_of none = false
    learner_of (some member) = member.is_learner

    unfoldable pub has_etcd_learner : Exec (Stage W) Bool
    unfolding etcd_client etcd_peer_url
    has_etcd_learner = do
      client ← etcd_client
      members ← beyond etcd.member_list
      peer_url ← etcd_peer_url
      pure (learner_of (find_member peer_url members))

    unfoldable pub etcd_members : Exec (Stage W) (List Member)
    unfolding etcd_client
    etcd_members = etcd_client >>= λ client. beyond etcd.member_list

    -- The member's id, or `none` if it was not found.
    unfoldable pub etcd_member_id : Exec (Stage W) (Option ℕ)
    unfolding etcd_members etcd_peer_url
    etcd_member_id = do
      members ← etcd_members
      peer_url ← etcd_peer_url
      pure (Option.map (λ (member : Member). member.id) (find_member peer_url members))

    abbrev pub is_found : Option ℕ → Bool
    is_found none = false
    is_found (some id) = true

    unfoldable pub has_etcd_member : Exec (Stage W) Bool
    unfolding etcd_member_id
    has_etcd_member = etcd_member_id >>= λ found. pure (is_found found)

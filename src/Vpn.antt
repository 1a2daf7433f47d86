-- ===== src/Vpn.antt =====
-- The VPN of a cluster: internal/pkg/cluster/vpn.go, and GenerateVPNPeer, VPNPeer and requestVPNIP of
-- internal/pkg/cluster/cluster.go. A large number's bytes, the network of a CIDR and the texts of
-- addresses are what the standard library makes of them; keys are made by `generate_key`.
pub mod Slices
pub mod Addresses
use oneinfra.Base.{
  ℕ, ◌+◌, String, Bool, not, Option, none, some, List, [], ◌∷◌, eqb, if◌then◌else◌, length,
}
use oneinfra.Base.Errors.{errorf, ok, err, Error, Exec, Result}
use oneinfra.Base.Actions.{pure, ◌>>=◌, lift, choose, raise}
use oneinfra.Dict
use oneinfra.Dict.{Dict}

pub record VpnPeer : Type 0 where
  pub name : String
  pub address : String
  pub private_key : String
  pub public_key : String

-- A map of pointers to peers.
abbrev pub VpnPeerMap : Type 0
VpnPeerMap = Dict VpnPeer

-- A network of addresses: its 16 bytes, with `contains` and the text of IPNet for one of its addresses.
pub record Cidr : Type 0 where
  pub ip_to16 : List ℕ
  pub contains : List ℕ → Bool
  pub text : String
  pub peer_address : String → String

-- `set_bytes` and `bytes` are those of big.Int, and `ip_string` is IP.String.
pub record Network (W : Type 0) : Type 0 where
  pub set_bytes : List ℕ → ℕ
  pub bytes : ℕ → List ℕ
  pub ip_string : List ℕ → String
  pub generate_key : Exec W (String × String)

-- The list of peers of a versioned cluster as a map, and back.
unfoldable pub new_vpn_peers_from_v1alpha1 : VpnPeerMap → List VpnPeer → VpnPeerMap
new_vpn_peers_from_v1alpha1 res [] = res
new_vpn_peers_from_v1alpha1 res (peer ∷ peers) =
    new_vpn_peers_from_v1alpha1 (Dict.insert peer.name peer res) peers

unfoldable pub export_vpn_peers : VpnPeerMap → List VpnPeer
export_vpn_peers [] = []
export_vpn_peers ((name, peer) ∷ peers) = peer ∷ export_vpn_peers peers

-- bytes[2:], which panics if there are fewer.
abbrev pub without_two : List ℕ → Result (List ℕ)
without_two (a ∷ b ∷ rest) = ok rest
without_two _ = err (errorf "slice bounds out of range" [])

module _ {W : Type 0} (network : Network W) (cidr : Cidr) where
  -- The bytes of the n-th address of the network.
  unfoldable pub assigned_bytes : ℕ → Result (List ℕ)
  assigned_bytes assigned_ip =
      let bytes = network.bytes (network.set_bytes cidr.ip_to16 + assigned_ip) in
      if eqb (length bytes) 16 then ok bytes else without_two bytes

  abbrev pub assigned_address : Result (List ℕ) → Result String
  assigned_address (err e) = err e
  assigned_address (ok slice) =
      if cidr.contains slice
      then ok (network.ip_string slice)
      else err (errorf "not enough IP addresses to assign in the %q CIDR" (cidr.text ∷ []))

  unfoldable pub request_vpn_ip : VpnPeerMap → Result String
  unfolding assigned_bytes
  request_vpn_ip peers = assigned_address (assigned_bytes (length peers + 1))

  abbrev pub found_peer : String → Option VpnPeer → Result VpnPeer
  found_peer name none = err (errorf "vpn peer %q not found" (name ∷ []))
  found_peer name (some peer) = ok peer

  unfoldable pub vpn_peer : String → VpnPeerMap → Result VpnPeer
  vpn_peer name peers = found_peer name (Dict.lookup name peers)

  abbrev pub add_peer :
      String → String → Result (String × String) × W → VpnPeerMap → Result VpnPeer × VpnPeerMap × W
  add_peer peer_name vpn_ip (err e, w) peers = (err e, peers, w)
  add_peer peer_name vpn_ip (ok (private_key, public_key), w) peers =
      let peer : VpnPeer = record {
        name = peer_name;
        address = cidr.peer_address vpn_ip;
        private_key = private_key;
        public_key = public_key;
      } in
      (ok peer, Dict.insert peer_name peer peers, w)

  abbrev pub generate_with :
      String → Result String → VpnPeerMap → W → Result VpnPeer × VpnPeerMap × W
  generate_with peer_name (err e) peers w = (err e, peers, w)
  generate_with peer_name (ok vpn_ip) peers w =
      add_peer peer_name vpn_ip (network.generate_key w) peers

  abbrev pub generate_unless :
      String → Result VpnPeer → VpnPeerMap → W → Result VpnPeer × VpnPeerMap × W
  generate_unless peer_name (ok peer) peers w = (ok peer, peers, w)
  generate_unless peer_name (err e) peers w = generate_with peer_name (request_vpn_ip peers) peers w

  unfoldable pub generate_vpn_peer : String → VpnPeerMap → W → Result VpnPeer × VpnPeerMap × W
  unfolding request_vpn_ip vpn_peer
  generate_vpn_peer peer_name peers w = generate_unless peer_name (vpn_peer peer_name peers) peers w

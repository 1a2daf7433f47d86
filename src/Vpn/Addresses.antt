-- ===== src/Vpn/Addresses.antt =====
-- No two peers of a VPN have one address, in internal/pkg/cluster/cluster.go.
use oneinfra.Base.{
  ℕ, ◌+◌, ◌≤◌, ◌<◌, String, ◌≡◌, refl, sym, ◌∙◌, subst, ◌≢◌, Option, none, some, List, [], ◌∷◌,
  ◌++◌, arith, length, length-append, All, All-append, All-mono,
}
use oneinfra.Base.Errors.{err, ok, Result}
use oneinfra.Dict
use oneinfra.Dict.{Dict, length-insert}
use oneinfra.Vpn.Slices.{AddressLaws, assigned_address-apart}
use oneinfra.Vpn.{
  add_peer, generate_with, assigned_bytes, found_peer, generate_unless, assigned_address, vpn_peer,
  Network, Cidr, VpnPeer, VpnPeerMap, request_vpn_ip, generate_vpn_peer,
}

-- More addresses than any list of a program can ask for.
abbrev pub address_bound : ℕ
address_bound = 18446744073709551616

module _ {W : Type 0} (network : Network W) (cidr : Cidr) where
  -- A peer with one of the first n addresses of the network.
  abbrev pub AmongFirst : ℕ → VpnPeer → Type 0
  AmongFirst n peer =
      (i : ℕ) × (i ≤ n)
      × (s : String) × (assigned_address network cidr (assigned_bytes network cidr i) ≡ ok s)
      × (peer.address ≡ cidr.peer_address s)

  abbrev pub Apart : VpnPeerMap → Type 0
  Apart [] = Unit
  Apart ((name, peer) ∷ peers) =
      All (λ (other : String × VpnPeer). peer.address ≢ other.1.address) peers × Apart peers

  -- The peers have addresses among the first, as many as there are peers, and no two have the same.
  abbrev pub Numbered : VpnPeerMap → Type 0
  Numbered peers =
      All (λ (entry : String × VpnPeer). AmongFirst (length peers) entry.1) peers × Apart peers

  insert-absent :
      (name : String) (peer : VpnPeer) (peers : VpnPeerMap)
      → Dict.lookup name peers ≡ none
      → Dict.insert name peer peers ≡ peers ++ (name, peer) ∷ []
  unfolding Dict.insert Dict.lookup
  insert-absent name peer [] e = refl
  insert-absent name peer ((other, p) ∷ peers) e = ground (arith, e, insert-absent name peer peers)

  Apart-snoc :
      (name : String) (peer : VpnPeer) (peers : VpnPeerMap)
      → Apart peers
      → All (λ (entry : String × VpnPeer). entry.1.address ≢ peer.address) peers
      → Apart (peers ++ (name, peer) ∷ [])
  Apart-snoc name peer [] a d = (tt, tt)
  Apart-snoc name peer ((other, p) ∷ peers) a d =
      (All-append _ peers ((name, peer) ∷ []) a.0 (d.0, tt), Apart-snoc name peer peers a.1 d.1)

  -- The peers after GenerateVPNPeer was called for these names, one after the other.
  abbrev pub peers_after : List String → VpnPeerMap → W → VpnPeerMap
  peers_after [] peers w = peers
  peers_after (name ∷ names) peers w =
      let (result, peers', w') = generate_vpn_peer network cidr name peers w in
      peers_after names peers' w'

  module _ (laws : AddressLaws network cidr) where
    appended-Numbered :
        (name : String) (peer : VpnPeer) (peers : VpnPeerMap) (s : String)
        → length peers + 1 < address_bound
        → Numbered peers
        → assigned_address network cidr (assigned_bytes network cidr (length peers + 1)) ≡ ok s
        → peer.address ≡ cidr.peer_address s
        → Numbered (peers ++ (name, peer) ∷ [])
    appended-Numbered name peer peers s small (among, apart) e address =
        let n : length (peers ++ (name, peer) ∷ []) ≡ length peers + 1 = length-append peers _ in
        (
          subst
              (λ k.
                All (λ (entry : String × VpnPeer). AmongFirst k entry.1)
                  (peers ++ (name, peer) ∷ []))
              (sym n)
              (All-append _ peers ((name, peer) ∷ [])
                (All-mono _ _ peers
                  (λ (entry : String × VpnPeer) (i, le, t, f, a). (i, omega (arith, le), t, f, a))
                  among)
                ((length peers + 1, omega arith, s, e, address), tt)),
          Apart-snoc name peer peers apart (
              All-mono _ _ peers
                (λ (entry : String × VpnPeer) (i, le, t, f, a) same.
                  let equal : i ≡ length peers + 1 =
                    assigned_address-apart network cidr laws i (length peers + 1) t s
                      (omega (arith, le, small)) small f e (sym a ∙ same ∙ address) in
                  absurd (omega (arith, equal, le)))
                among),
        )

    add_peer-Numbered :
        (name vpn_ip : String) (r : Result (String × String) × W) (peers : VpnPeerMap)
        → length peers + 1 < address_bound
        → Dict.lookup name peers ≡ none
        → Numbered peers
        → assigned_address network cidr (assigned_bytes network cidr (length peers + 1)) ≡ ok vpn_ip
        → Numbered (add_peer network cidr name vpn_ip r peers).1
    add_peer-Numbered name vpn_ip (err x, w) peers small absent p e = p
    add_peer-Numbered name vpn_ip (ok (private_key, public_key), w) peers small absent p e =
        subst Numbered (sym (insert-absent name _ peers absent))
          (appended-Numbered name _ peers vpn_ip small p e refl)

    generate_with-Numbered :
        (name : String) (r : Result String) (peers : VpnPeerMap) (w : W)
        → length peers + 1 < address_bound
        → Dict.lookup name peers ≡ none
        → Numbered peers
        → assigned_address network cidr (assigned_bytes network cidr (length peers + 1)) ≡ r
        → Numbered (generate_with network cidr name r peers w).1
    generate_with-Numbered name (err x) peers w small absent p e = p
    generate_with-Numbered name (ok vpn_ip) peers w small absent p e =
        add_peer-Numbered name vpn_ip (network.generate_key w) peers small absent p e

    generate_unless-Numbered :
        (name : String) (o : Option VpnPeer) (peers : VpnPeerMap) (w : W)
        → length peers + 1 < address_bound
        → Dict.lookup name peers ≡ o
        → Numbered peers
        → Numbered (generate_unless network cidr name (found_peer network cidr name o) peers w).1
    unfolding request_vpn_ip
    generate_unless-Numbered name (some peer) peers w small e p = p
    generate_unless-Numbered name none peers w small e p =
        generate_with-Numbered name (request_vpn_ip network cidr peers) peers w small e p refl

    -- GenerateVPNPeer keeps this, as long as there are fewer peers than the bound: every peer has one
    -- of the first addresses of the network, as many as there are peers, and no two peers have one
    -- address.
    pub generate_vpn_peer-Numbered :
        (peer_name : String) (peers : VpnPeerMap) (w : W)
        → length peers + 1 < address_bound
        → Numbered peers
        → Numbered (generate_vpn_peer network cidr peer_name peers w).1
    unfolding generate_vpn_peer vpn_peer
    generate_vpn_peer-Numbered peer_name peers w small p =
        generate_unless-Numbered peer_name (Dict.lookup peer_name peers) peers w small refl p

    add_peer-length :
        (name vpn_ip : String) (r : Result (String × String) × W) (peers : VpnPeerMap)
        → length (add_peer network cidr name vpn_ip r peers).1 ≤ length peers + 1
    add_peer-length name vpn_ip (err x, w) peers = omega arith
    add_peer-length name vpn_ip (ok (private_key, public_key), w) peers = ground (
      arith,
      length-insert name
          (record {
            name = name;
            address = cidr.peer_address vpn_ip;
            private_key = private_key;
            public_key = public_key;
          })
          peers,
    )

    generate_with-length :
        (name : String) (r : Result String) (peers : VpnPeerMap) (w : W)
        → length (generate_with network cidr name r peers w).1 ≤ length peers + 1
    generate_with-length name (err x) peers w = omega arith
    generate_with-length name (ok vpn_ip) peers w =
        add_peer-length name vpn_ip (network.generate_key w) peers

    generate_unless-length :
        (name : String) (r : Result VpnPeer) (peers : VpnPeerMap) (w : W)
        → length (generate_unless network cidr name r peers w).1 ≤ length peers + 1
    generate_unless-length name (ok peer) peers w = omega arith
    generate_unless-length name (err x) peers w =
        generate_with-length name (request_vpn_ip network cidr peers) peers w

    generate_vpn_peer-length :
        (name : String) (peers : VpnPeerMap) (w : W)
        → length (generate_vpn_peer network cidr name peers w).1 ≤ length peers + 1
    unfolding generate_vpn_peer
    generate_vpn_peer-length name peers w = generate_unless-length name _ peers w

    after-Numbered :
        (names : List String) (peers : VpnPeerMap) (w : W)
        → length peers + length names < address_bound
        → Numbered peers
        → Numbered (peers_after names peers w)
    after-Numbered [] peers w small p = p
    after-Numbered (name ∷ names) peers w small p =
        let next = generate_vpn_peer network cidr name peers w in
        after-Numbered names next.1 next.2
          (omega (arith, generate_vpn_peer-length name peers w, small))
          (generate_vpn_peer-Numbered name peers w (omega (arith, small)) p)

    -- However often GenerateVPNPeer is called, for new names and for old ones, from a cluster without
    -- peers no two peers get one address: for fewer than 2 ^ 64 names, where large numbers are
    -- written in bytes, the highest first and without a leading zero, and where the network contains
    -- addresses of 16 bytes, or of 4 if its own is one of version 4, and gives different texts to
    -- different ones of one length.
    pub peers_after-Apart :
        (names : List String) (w : W)
        → length names < address_bound
        → Apart (peers_after names [] w)
    peers_after-Apart names w small = (after-Numbered names [] w (omega (arith, small)) (tt, tt)).1

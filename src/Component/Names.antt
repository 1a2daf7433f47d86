-- ===== src/Component/Names.antt =====
-- The names under which components request their host ports, and that no two of them collide.
use oneinfra.Base.{
  ℕ, String, ◌≡◌, refl, sym, ap, ◌∙◌, List, [], ◌∷◌, ◌++◌, arith, concat, concat_cancel_right,
  code_points, reverse-code_points-concat,
}
use mathlib.Core.List.{reverse}
use oneinfra.Component.{Component, with_subcomponent_name}

-- The names of host ports in internal/pkg/component/components.
abbrev pub api_server_host_port_name : String
api_server_host_port_name = "apiserver"

abbrev pub wireguard_host_port_name : String
wireguard_host_port_name = "wireguard"

abbrev pub etcd_peer_host_port_name : String
etcd_peer_host_port_name = "etcd-peer"

abbrev pub etcd_client_host_port_name : String
etcd_client_host_port_name = "etcd-client"

pub data HostPort : Type 0 where
  api_server wireguard etcd_peer etcd_client : HostPort

abbrev pub host_port_name : HostPort → String
host_port_name api_server = api_server_host_port_name
host_port_name wireguard = wireguard_host_port_name
host_port_name etcd_peer = etcd_peer_host_port_name
host_port_name etcd_client = etcd_client_host_port_name

abbrev ending : String → String → List ℕ
ending name port = reverse (code_points (concat "-" port)) ++ reverse (code_points name)

ending-concat :
    (s t u v : String) → concat s (concat "-" u) ≡ concat t (concat "-" v) → ending s u ≡ ending t v
ending-concat s t u v e =
    sym (reverse-code_points-concat s (concat "-" u))
    ∙ ap (λ w. reverse (code_points w)) e
    ∙ reverse-code_points-concat t (concat "-" v)

-- Two characters, counted from the end, tell the names apart.
abbrev first : List ℕ → ℕ
first [] = 0
first (a ∷ l) = a

abbrev third : List ℕ → ℕ
third (a ∷ b ∷ c ∷ l) = c
third _ = 0

host_ports-agree :
    (s t : String) (p q : HostPort)
    → ending s (host_port_name p) ≡ ending t (host_port_name q)
    → p ≡ q
host_ports-agree s t api_server api_server e = refl
host_ports-agree s t wireguard wireguard e = refl
host_ports-agree s t etcd_peer etcd_peer e = refl
host_ports-agree s t etcd_client etcd_client e = refl
host_ports-agree s t _ _ e = absurd (omega (arith, ap first e, ap third e))

-- Components with different names never ask the hypervisor for a host port under one name, nor
-- does one component for two of its ports.
pub with_subcomponent_name-injective :
    (c d : Component) (p q : HostPort)
    → with_subcomponent_name c (host_port_name p) ≡ with_subcomponent_name d (host_port_name q)
    → (c.name ≡ d.name) × (p ≡ q)
unfolding with_subcomponent_name
with_subcomponent_name-injective c d p q e =
    let same : p ≡ q =
      host_ports-agree c.name d.name p q
        (ending-concat c.name d.name (host_port_name p) (host_port_name q) e) in
    (concat_cancel_right c.name d.name (concat "-" (host_port_name q)) (rw same at e), same)

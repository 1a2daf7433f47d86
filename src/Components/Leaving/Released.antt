-- ===== src/Components/Leaving/Released.antt =====
-- What a finished ReconcileDeletion of internal/pkg/component/components/control_plane_ingress.go
-- leaves in the store.
use oneinfra.Components.FileMap.{file_up_to_date-cleanup_hypervisor_file_map}
use oneinfra.Infra.Files.{file_up_to_date}
use oneinfra.Base.{
  ℕ, String, ◌≡◌, refl, sym, ap, ◌∙◌, subst, Bool, true, false, none, some, List, [], ◌∷◌, arith,
  eq_refl, concat,
}
use oneinfra.Base.Errors.{some_inj, ok_inj, err, ok, Exec, Result}
use oneinfra.Base.Actions.{>>=-Ensures, pure, ◌>>◌, Ensures, choose}
use oneinfra.Dict
use oneinfra.Dict.{lookup-insert, Dict}
use oneinfra.Component.{Component}
use oneinfra.Components.{
  or_panic, current_component, current_hypervisor, Hypervisor, beyond, Stage, Inquirer,
  find_component,
}
use oneinfra.Components.Ports.Freed.{free_own_port-StageLacks, StageLacks, Lacks}
use oneinfra.Components.Leaving.{
  secrets_cleanup, unless_gone, cleanup_pod, ingress_deletion, Left, cleanup_hypervisor_file_map,
  cleanup_after, cleanup_as, cleaned, delete_pod, cleanup_on, Awaited, Pod, delete_own_pod,
  free_own_port, api_server_host_port_name, wireguard_host_port_name, PodCodecs, host_cleanup,
  stop_ingress,
}
use oneinfra.Infra.Pods.{ContainerRuntime, Host}

module _ {N : Type 0} (cri : ContainerRuntime N) (codecs : PodCodecs) (inquirer : Inquirer) where
  abbrev pub ingress_ports : Bool → List String
  ingress_ports true = wireguard_host_port_name ∷ api_server_host_port_name ∷ []
  ingress_ports false = api_server_host_port_name ∷ []

  free_wireguard-StageLacks :
      (vpn_enabled : Bool)
      → Ensures
          (StageLacks inquirer (api_server_host_port_name ∷ []))
          (choose vpn_enabled
            (free_own_port {W = Host N} inquirer wireguard_host_port_name)
            (pure tt))
          (λ u. StageLacks inquirer (ingress_ports vpn_enabled))
  free_wireguard-StageLacks true =
      free_own_port-StageLacks inquirer (api_server_host_port_name ∷ []) wireguard_host_port_name
  free_wireguard-StageLacks false = λ stage p u e. p

  beyond-StageLacks :
      (names : List String) (op : Exec (Host N) Unit)
      → Ensures (StageLacks inquirer names) (beyond op) (λ u. StageLacks inquirer names)
  beyond-StageLacks names op stage (c, f, lacks) u e = (c, f, lacks)

  stop_ingress-StageLacks :
      (vpn_enabled : Bool)
      → Ensures
          (StageLacks inquirer [])
          (stop_ingress cri codecs inquirer vpn_enabled)
          (λ u. StageLacks inquirer (ingress_ports vpn_enabled))
  unfolding stop_ingress delete_own_pod
  stop_ingress-StageLacks vpn_enabled =
      let pod_name = concat "control-plane-ingress-" inquirer.cluster_name in
      let stop = delete_own_pod cri codecs inquirer pod_name in
      let lacks_one = StageLacks {W = Host N} inquirer (api_server_host_port_name ∷ []) in
      >>=-Ensures (StageLacks inquirer []) (λ u. lacks_one)
        (λ u. StageLacks inquirer (ingress_ports vpn_enabled))
        (stop >> free_own_port inquirer api_server_host_port_name) _
        (>>=-Ensures (StageLacks inquirer []) (λ u. StageLacks inquirer []) (λ u. lacks_one) stop _
          (beyond-StageLacks [] (
            delete_pod cri inquirer.cluster_namespace inquirer.cluster_name inquirer.name pod_name))
          λ u. free_own_port-StageLacks inquirer [] api_server_host_port_name)
        λ u. free_wireguard-StageLacks vpn_enabled

  module _ (names : List String) where
    -- The component lacks the ports, and none of its files counts as up to date on its hypervisor.
    abbrev pub Released : Stage (Host N) → Type 0
    Released end =
        (c : Component) × (find_component inquirer.namespace inquirer.name end.components ≡ some c)
        × Lacks names c
        × ((h : Hypervisor) × (Dict.lookup c.hypervisor_name end.hypervisors ≡ some h)
            × ((host_path file_contents : String)
                → file_up_to_date codecs inquirer.cluster_namespace inquirer.cluster_name c.name h
                    host_path file_contents
                  ≡ false))

    abbrev IsHere : Component → Stage (Host N) → Type 0
    IsHere c stage =
        (find_component inquirer.namespace inquirer.name stage.components ≡ some c) × Lacks names c

    cleaned-Released :
        (c : Component) (h : Hypervisor) (stage : Stage (Host N))
        → IsHere c stage
        → (a : Awaited N) (end : Stage (Host N))
        → cleaned cri codecs inquirer c h stage a ≡ some (ok tt, end)
        → Released end
    cleaned-Released c h stage p none end e = absurd (ground (arith, e))
    cleaned-Released c h stage p (some (err x, host)) end e = absurd (ground (arith, e))
    cleaned-Released c h stage (f, lacks) (some (ok u, host)) end e =
        subst Released (ap (λ z. z.1) (some_inj e)) (
          c,
          f,
          lacks,
          (
            cleanup_hypervisor_file_map h inquirer.cluster_namespace inquirer.cluster_name c.name,
            lookup-insert c.hypervisor_name c.hypervisor_name _ stage.hypervisors
                ∙ ground (arith, eq_refl c.hypervisor_name),
            λ path contents.
                file_up_to_date-cleanup_hypervisor_file_map codecs h inquirer.cluster_namespace
                  inquirer.cluster_name c.name inquirer.cluster_namespace inquirer.cluster_name
                  c.name path contents
                ∙ ground (
                  arith,
                  eq_refl inquirer.cluster_namespace,
                  eq_refl inquirer.cluster_name,
                  eq_refl c.name,
                ),
          ),
        )

    cleanup_on-Released :
        (rounds : ℕ) (pod : Pod) (c : Component) (r : Result Hypervisor × Stage (Host N))
        → IsHere c r.1
        → (end : Stage (Host N)) → cleanup_on cri codecs inquirer rounds pod c r ≡ some (ok tt, end)
        → Released end
    cleanup_on-Released rounds pod c (err x, stage) p end e = absurd (ground (arith, e))
    cleanup_on-Released rounds pod c (ok h, stage) p end e = cleaned-Released c h stage p _ end e

    cleanup_as-Released :
        (rounds : ℕ) (pod : Pod) (r : Result Component × Stage (Host N))
        → ((c : Component) → r.0 ≡ ok c → IsHere c r.1)
        → (end : Stage (Host N)) → cleanup_as cri codecs inquirer rounds pod r ≡ some (ok tt, end)
        → Released end
    unfolding current_hypervisor
    cleanup_as-Released rounds pod (err x, stage) p end e = absurd (ground (arith, e))
    cleanup_as-Released rounds pod (ok c, stage) p end e =
        cleanup_on-Released rounds pod c (current_hypervisor inquirer c stage) (p c refl) end e

    host_cleanup-Released :
        (rounds : ℕ) (pod : Pod) (stage : Stage (Host N))
        → StageLacks inquirer names stage
        → (end : Stage (Host N))
        → host_cleanup cri codecs inquirer rounds pod stage ≡ some (ok tt, end)
        → Released end
    unfolding host_cleanup current_component
    host_cleanup-Released rounds pod stage (c, f, lacks) =
        cleanup_as-Released rounds pod (current_component inquirer stage) λ a e.
          let same : c ≡ a = ok_inj (sym (ap or_panic f) ∙ e) in
          (f ∙ ap some same, subst (Lacks names) same lacks)

    cleanup_after-Released :
        (rounds : ℕ) (pod : Pod) (r : Result (Unit {0}) × Stage (Host N))
        → ((u : Unit {0}) → r.0 ≡ ok u → StageLacks inquirer names r.1)
        → (end : Stage (Host N))
        → cleanup_after cri codecs inquirer rounds pod r ≡ some (ok tt, end)
        → Released end
    cleanup_after-Released rounds pod (err x, stage) p end e = absurd (ground (arith, e))
    cleanup_after-Released rounds pod (ok u, stage) p end e =
        host_cleanup-Released rounds pod stage (p u refl) end e

  unless_gone-here :
      (stage : Stage (Host N)) (c : Component) (go : Stage (Host N) → Left cri codecs inquirer)
      → find_component inquirer.namespace inquirer.name stage.components ≡ some c
      → Dict.has c.hypervisor_name stage.hypervisors ≡ true
      → unless_gone cri codecs inquirer (current_component inquirer stage) go ≡ go stage
  unfolding current_component
  unless_gone-here stage c go f here =
      ap (λ o. unless_gone cri codecs inquirer (or_panic o, stage) go) f ∙ ground (arith, here)

  -- If ReconcileDeletion of an ingress component succeeds within some number of rounds, and the
  -- component is in the store and its hypervisor with it, then in the end the component has no host
  -- port for the API server, nor for the VPN if the cluster has one, and none of its files counts as
  -- up to date on its hypervisor any more.
  pub ingress_deletion-Released :
      (join_path : String → String → String) (rounds : ℕ) (vpn_enabled : Bool)
      → (stage end : Stage (Host N)) (component : Component)
      → find_component inquirer.namespace inquirer.name stage.components ≡ some component
      → Dict.has component.hypervisor_name stage.hypervisors ≡ true
      → ingress_deletion cri codecs inquirer join_path rounds vpn_enabled stage ≡ some (ok tt, end)
      → Released (ingress_ports vpn_enabled) end
  unfolding ingress_deletion
  ingress_deletion-Released join_path rounds vpn_enabled stage end component f here e =
      cleanup_after-Released (ingress_ports vpn_enabled) rounds
        (cleanup_pod join_path inquirer.cluster_namespace inquirer.cluster_name inquirer.name (
          secrets_cleanup join_path inquirer.cluster_namespace inquirer.cluster_name inquirer.name
          ∷ []))
        (stop_ingress cri codecs inquirer vpn_enabled stage)
        (stop_ingress-StageLacks vpn_enabled stage (component, f, tt)) end
        (sym (unless_gone-here stage component _ f here) ∙ e)

-- ===== src/Infra/Versioned/Laws.antt =====
-- Conversions of hypervisors, and the test that decides whether a hypervisor is written back.
use oneinfra.Infra.Hypervisor.{
  Hypervisor, HypervisorEndpoint, HypervisorPortAllocationList, Certificate,
}
use oneinfra.Infra.Versioned.{
  connect, imported, connection, export, specs, refresh_cached_specs, is_dirty,
  refresh_cached_specs, export_remote, export_local, new_hypervisor_from_v1alpha1,
  HypervisorConnectionPool, copy_certificate, RemoteHypervisorCriEndpoint, endpoint_from_v1alpha1,
  VersionedHypervisor, copy_allocations,
}
use oneinfra.Base.{
  String, ◌≡◌, refl, sym, ap, ap₂, ◌∙◌, subst, ◌≢◌, ◌⊎◌, inl, inr, false, Option, none, some, [],
  ◌∷◌, arith, eq_refl,
}
use oneinfra.Base.Errors.{ok, ok_inj, Result-cases}
use oneinfra.Dict
use oneinfra.Dict.{lookup-insert}

-- Exactly one of the two endpoints is given.
abbrev pub OneEndpoint : VersionedHypervisor → Type 0
OneEndpoint v =
    ((v.spec.local_cri_endpoint ≢ none) × (v.spec.remote_cri_endpoint ≡ none))
    ⊎ ((v.spec.local_cri_endpoint ≡ none) × (v.spec.remote_cri_endpoint ≢ none))

one_endpoint :
    (n : String) (l : Option String) (r : Option RemoteHypervisorCriEndpoint)
    (e : HypervisorEndpoint)
    → endpoint_from_v1alpha1 n l r ≡ ok e
    → ((l ≢ none) × (r ≡ none)) ⊎ ((l ≡ none) × (r ≢ none))
unfolding endpoint_from_v1alpha1
one_endpoint n none none e h = cc
one_endpoint n (some l) (some r) e h = cc
one_endpoint n (some l) none e h = inl ((λ z. cc), refl)
one_endpoint n none (some r) e h = inr (refl, (λ z. cc))

copy_allocations_lem : (l : HypervisorPortAllocationList) → copy_allocations l ≡ l
unfolding copy_allocations
copy_allocations_lem [] = refl
copy_allocations_lem (a ∷ l) = ap (λ z. a ∷ z) (copy_allocations_lem l)

copy_certificate_lem : (c : Option Certificate) → copy_certificate c ≡ c
copy_certificate_lem none = refl
copy_certificate_lem (some c) = refl

export_local-import :
    (n : String) (l : Option String) (r : Option RemoteHypervisorCriEndpoint)
    (e : HypervisorEndpoint)
    → endpoint_from_v1alpha1 n l r ≡ ok e
    → export_local e ≡ l
unfolding endpoint_from_v1alpha1 export_local
export_local-import n none none e h = cc
export_local-import n (some l) (some r) e h = cc
export_local-import n (some l) none e h = rw (sym (ok_inj h)) refl
export_local-import n none (some r) e h = rw (sym (ok_inj h)) refl

export_remote-import :
    (n : String) (l : Option String) (r : Option RemoteHypervisorCriEndpoint)
    (e : HypervisorEndpoint)
    → endpoint_from_v1alpha1 n l r ≡ ok e
    → export_remote e ≡ r
unfolding endpoint_from_v1alpha1 export_remote
export_remote-import n none none e h = cc
export_remote-import n (some l) (some r) e h = cc
export_remote-import n (some l) none e h = rw (sym (ok_inj h)) refl
export_remote-import n none (some r) e h =
    rw
      (
        sym (ok_inj h),
        copy_certificate_lem r.client_certificate,
        copy_certificate_lem r.client_certificate,
      )
      refl

connection_fresh :
    (pool : HypervisorConnectionPool) (n : String) (e : HypervisorEndpoint)
    → Dict.lookup n pool ≡ none
    → (connection pool n e).1 ≡ e
unfolding connection
connection_fresh pool n e h = ap (λ o. (connect o pool n e).1) h

connection_known :
    (pool : HypervisorConnectionPool) (n : String) (e known : HypervisorEndpoint)
    → Dict.lookup n pool ≡ some known
    → (connection pool n e).1 ≡ known
unfolding connection
connection_known pool n e known h = ap (λ o. (connect o pool n e).1) h

module _ (encode : VersionedHypervisor → Option String) (sha1_hex : String → String) where
  abbrev ImportsAs :
      VersionedHypervisor → HypervisorConnectionPool → HypervisorEndpoint → Hypervisor → Type 0
  ImportsAs v pool e g =
      (endpoint_from_v1alpha1 v.name v.spec.local_cri_endpoint v.spec.remote_cri_endpoint ≡ ok e)
      × (refresh_cached_specs encode sha1_hex
            (imported encode sha1_hex v (connection pool v.name e).1)
          ≡ ok g)

  -- What a successful conversion went through.
  import_inv :
      (v : VersionedHypervisor) (pool : HypervisorConnectionPool) (g : Hypervisor)
      → (new_hypervisor_from_v1alpha1 encode sha1_hex v pool).0 ≡ ok g
      → (e : HypervisorEndpoint) × ImportsAs v pool e g
  unfolding new_hypervisor_from_v1alpha1
  import_inv v pool g h =
      elim (Result-cases
        (endpoint_from_v1alpha1 v.name v.spec.local_cri_endpoint v.spec.remote_cri_endpoint)) [
          | inl (e, q) ↦ (e, (q, rw q at h))
          | inr (x, q) ↦ absurd (ground (arith, rw q at h))
        ]

  -- A hypervisor that is converted without an error has exactly one of the two endpoints.
  pub new_hypervisor_from_v1alpha1-OneEndpoint :
      (v : VersionedHypervisor) (pool : HypervisorConnectionPool) (g : Hypervisor)
      → (new_hypervisor_from_v1alpha1 encode sha1_hex v pool).0 ≡ ok g
      → OneEndpoint v
  new_hypervisor_from_v1alpha1-OneEndpoint v pool g h =
      let (e, (q, r)) = import_inv v pool g h in one_endpoint v.name _ _ e q

  refreshed :
      (h g : Hypervisor)
      → refresh_cached_specs encode sha1_hex h ≡ ok g
      → (text : String) × (specs encode sha1_hex h ≡ ok text)
        × (g ≡ record h { loaded_contents_hash = sha1_hex text })
  unfolding refresh_cached_specs
  refreshed h g e = elim (Result-cases (specs encode sha1_hex h)) [
    | inl (text, q) ↦ (text, q, sym (ok_inj (rw q at e)))
    | inr (x, q) ↦ absurd (ground (arith, rw q at e))
  ]

  -- A hypervisor that was converted without an error is not dirty.
  pub is_dirty-new_hypervisor_from_v1alpha1 :
      (v : VersionedHypervisor) (pool : HypervisorConnectionPool) (g : Hypervisor)
      → (new_hypervisor_from_v1alpha1 encode sha1_hex v pool).0 ≡ ok g
      → is_dirty encode sha1_hex g ≡ ok false
  unfolding is_dirty specs export
  is_dirty-new_hypervisor_from_v1alpha1 v pool g h =
      let (e, (q, r)) = import_inv v pool g h in
      let (text, s, t) = refreshed _ g r in
      subst (λ z. is_dirty encode sha1_hex z ≡ ok false) (sym t)
        (rw (s, eq_refl (sha1_hex text)) refl)

  spec_eq :
      (v : VersionedHypervisor) (e : HypervisorEndpoint) (g : Hypervisor) (sum : String)
      → export_local e ≡ v.spec.local_cri_endpoint
      → export_remote e ≡ v.spec.remote_cri_endpoint
      → (export encode sha1_hex
          (record (imported encode sha1_hex v e) { loaded_contents_hash = sum })).spec
        ≡ v.spec
  unfolding export imported
  spec_eq v e g sum l r =
      ap₂ (λ a b. record v.spec { local_cri_endpoint = a; remote_cri_endpoint = b }) l r

  -- A hypervisor that is read, without an error, through a pool that has no connection of its
  -- name is written back with the specification, the allocated ports and the freed ports with
  -- which it was read.
  pub export-new_hypervisor_from_v1alpha1 :
      (v : VersionedHypervisor) (pool : HypervisorConnectionPool) (g : Hypervisor)
      → Dict.lookup v.name pool ≡ none
      → (new_hypervisor_from_v1alpha1 encode sha1_hex v pool).0 ≡ ok g
      → let w = export encode sha1_hex g in
        (w.spec ≡ v.spec)
        × (w.status.allocated_ports ≡ v.status.allocated_ports)
        × (w.status.freed_ports ≡ v.status.freed_ports)
  unfolding export connection imported
  export-new_hypervisor_from_v1alpha1 v pool g fresh h =
      let (e, (q, r)) = import_inv v pool g h in
      let (text, s, t) = refreshed _ g (rw (connection_fresh pool v.name e fresh) at r) in
      subst
        (λ z.
          let w = export encode sha1_hex z in
          (w.spec ≡ v.spec)
          × (w.status.allocated_ports ≡ v.status.allocated_ports)
          × (w.status.freed_ports ≡ v.status.freed_ports))
        (sym t)
        (
          spec_eq v e g (sha1_hex text) (export_local-import v.name _ _ e q)
              (export_remote-import v.name _ _ e q),
          copy_allocations_lem _ ∙ copy_allocations_lem _,
          refl,
        )

  -- A hypervisor that is read, without an error, through a pool that has a connection of its
  -- name is written back with the endpoint of that connection, whatever endpoint its own
  -- specification names.
  pub export-new_hypervisor_from_v1alpha1_known :
      (v : VersionedHypervisor) (pool : HypervisorConnectionPool) (known : HypervisorEndpoint)
      (g : Hypervisor)
      → Dict.lookup v.name pool ≡ some known
      → (new_hypervisor_from_v1alpha1 encode sha1_hex v pool).0 ≡ ok g
      → let w = export encode sha1_hex g in
        (w.spec.local_cri_endpoint ≡ export_local known)
        × (w.spec.remote_cri_endpoint ≡ export_remote known)
  unfolding export connection imported
  export-new_hypervisor_from_v1alpha1_known v pool known g fresh h =
      let (e, (q, r)) = import_inv v pool g h in
      let (text, s, t) = refreshed _ g (rw (connection_known pool v.name e known fresh) at r) in
      subst
        (λ z.
          let w = export encode sha1_hex z in
          (w.spec.local_cri_endpoint ≡ export_local known)
          × (w.spec.remote_cri_endpoint ≡ export_remote known))
        (sym t) (refl, refl)

-- ===== src/Controllers/Scheduler/Written.antt =====
-- What controllers/component_scheduler.go writes back of a component, by way of the conversions of
-- internal/pkg/component/component.go.
use oneinfra.Base.{
  String, ◌≡◌, refl, sym, ap, ◌∙◌, subst, ◌⊎◌, inl, inr, List, [], ◌∷◌, arith, eq_iff, false,
  Bool-cases, Option-cases, ◌==◌, if◌then◌else◌,
}
use oneinfra.Base.Errors.{ok_inj, Result-cases, ok}
use oneinfra.Dict
use oneinfra.Dict.{Dict, has-insert, lookup-insert, lookup-nil, has-lookup-none, has-lookup-some}
use oneinfra.Utils.Laws.{contains}
use oneinfra.Infra.Hypervisor.{Certificate}
use oneinfra.Component.{Component, control_plane_role, control_plane_ingress_role}
use oneinfra.Component.Versioned.{
  VersionedComponent, import_ports, convert_role, copy_certificates, export, json_specs,
  refresh_cached_specs, new_component_from_v1alpha1,
}
use oneinfra.Component.Versioned.Laws.{import_ports-export}
use oneinfra.Controllers.{Codecs, to_component, from_component}

-- A map of certificates has each key once.
abbrev Keyed : Dict Certificate → Type 0
Keyed [] = Unit
Keyed ((name, c) ∷ m) = (Dict.has name m ≡ false) × Keyed m

insert-Keyed :
    (name : String) (c : Certificate) (m : Dict Certificate)
    → Keyed m
    → Keyed (Dict.insert name c m)
unfolding Dict.insert Dict.has
insert-Keyed name c [] k = (refl, tt)
insert-Keyed name c ((other, d) ∷ m) k = elim (Bool-cases (other == name)) [
  | inl e ↦ rw e (subst (λ z. Dict.has z m ≡ false) ((eq_iff other name).0 e) k.0, k.1)
  | inr e ↦ rw e (
    ground (arith, has-insert name other c m, k.0, e, eq_iff name other, eq_iff other name),
    insert-Keyed name c m k.1,
  )
]

copy_certificates-Keyed : (res m : Dict Certificate) → Keyed res → Keyed (copy_certificates res m)
unfolding copy_certificates
copy_certificates-Keyed res [] k = k
copy_certificates-Keyed res ((name, c) ∷ m) k =
    copy_certificates-Keyed (Dict.insert name c res) m (insert-Keyed name c res k)

lookup-copy_certificates :
    (x : String) (res m : Dict Certificate)
    → Keyed m
    → Dict.lookup x (copy_certificates res m)
      ≡ (if Dict.has x m then Dict.lookup x m else Dict.lookup x res)
unfolding copy_certificates Dict.has Dict.lookup
lookup-copy_certificates x res [] k = refl
lookup-copy_certificates x res ((name, c) ∷ m) k = elim (Bool-cases (name == x)) [
  | inl e ↦
      (let gone : Dict.has x m ≡ false =
          subst (λ z. Dict.has z m ≡ false) ((eq_iff name x).0 e) k.0 in
        ground (
          arith,
          e,
          gone,
          lookup-copy_certificates x (Dict.insert name c res) m k.1,
          lookup-insert name x c res,
        ))
  | inr e ↦ ground (
    arith,
    e,
    lookup-copy_certificates x (Dict.insert name c res) m k.1,
    lookup-insert name x c res,
  )
]

-- The two roles that a component can have.
abbrev pub IsRole : String → Type 0
IsRole role = (role ≡ control_plane_role) ⊎ (role ≡ control_plane_ingress_role)

convert_role-IsRole : (role : String) → IsRole role → convert_role role ≡ role
unfolding convert_role
convert_role-IsRole role (inl e) = ground (arith, e, eq_iff role control_plane_role)
convert_role-IsRole role (inr e) =
    ground (arith, e, eq_iff role control_plane_role, eq_iff role control_plane_ingress_role)

-- A component with another hypervisor, and what it keeps: all of its metadata, its cluster, its
-- role where this is one of the two, its endpoints and its conditions, and the port and the
-- certificates under each name as they are read into maps.
pub record Reassigned (v : VersionedComponent) (hypervisor_name : String) (v' : VersionedComponent)
    : Type 0 where
  pub assigned : v'.spec.hypervisor ≡ hypervisor_name
  pub same_names :
      (v'.name ≡ v.name)
      × (v'.generate_name ≡ v.generate_name)
      × (v'.namespace ≡ v.namespace)
      × (v'.resource_version ≡ v.resource_version)
  pub same_marks :
      (v'.labels ≡ v.labels)
      × (v'.annotations ≡ v.annotations)
      × (v'.finalizers ≡ v.finalizers)
      × (v'.deletion_timestamp ≡ v.deletion_timestamp)
  pub same_cluster : v'.spec.cluster ≡ v.spec.cluster
  pub same_role : IsRole v.spec.role → v'.spec.role ≡ v.spec.role
  pub same_ports :
      (x : String)
      → Dict.lookup x (import_ports [] v'.status.allocated_host_ports)
        ≡ Dict.lookup x (import_ports [] v.status.allocated_host_ports)
  pub same_certificates :
      (x : String)
      → (Dict.lookup x v'.status.client_certificates
          ≡ Dict.lookup x (copy_certificates [] v.status.client_certificates))
        × (Dict.lookup x v'.status.server_certificates
            ≡ Dict.lookup x (copy_certificates [] v.status.server_certificates))
  pub same_endpoints :
      (v'.status.input_endpoints ≡ v.status.input_endpoints)
      × (v'.status.output_endpoints ≡ v.status.output_endpoints)
  pub same_conditions : v'.status.conditions ≡ v.status.conditions

module _ (codecs : Codecs) where
  -- sort.Strings keeps the elements of a list.
  abbrev pub SortKeeps : Type 0
  SortKeeps = (x : String) (l : List String) → contains x (codecs.sort_strings l) ≡ contains x l

  -- A component that is converted, but for the hash of its text.
  abbrev converted : VersionedComponent → String → Component
  converted v hash = record {
    name = v.name;
    generate_name = v.generate_name;
    namespace = v.namespace;
    resource_version = v.resource_version;
    labels = v.labels;
    annotations = v.annotations;
    finalizers = v.finalizers;
    deletion_timestamp = v.deletion_timestamp;
    role = convert_role v.spec.role;
    hypervisor_name = v.spec.hypervisor;
    cluster_name = v.spec.cluster;
    allocated_host_ports = import_ports [] v.status.allocated_host_ports;
    client_certificates = copy_certificates [] v.status.client_certificates;
    server_certificates = copy_certificates [] v.status.server_certificates;
    input_endpoints = v.status.input_endpoints;
    output_endpoints = v.status.output_endpoints;
    conditions = v.status.conditions;
    loaded_contents_hash = hash;
  }

  refreshed :
      (c d : Component)
      → refresh_cached_specs codecs.json_marshal codecs.sha1_hex codecs.sort_strings c ≡ ok d
      → (hash : String) × (record c { loaded_contents_hash = hash } ≡ d)
  unfolding refresh_cached_specs
  refreshed c d e =
      elim (Result-cases (json_specs codecs.json_marshal codecs.sha1_hex codecs.sort_strings c)) [
        | inl (s, es) ↦ (codecs.sha1_hex s, ok_inj (rw es at e))
        | inr (x, es) ↦ absurd (ground (arith, rw es at e))
      ]

  certificates_kept :
      (x : String) (m : Dict Certificate)
      → Dict.lookup x (copy_certificates [] (copy_certificates [] m))
        ≡ Dict.lookup x (copy_certificates [] m)
  certificates_kept x m =
      let n = copy_certificates [] m in
      lookup-copy_certificates x [] n (copy_certificates-Keyed [] m tt)
      ∙ elim (Option-cases (Dict.lookup x n)) [
        | inl e ↦ rw (has-lookup-none x n e, e) (lookup-nil x)
        | inr (c, e) ↦ rw (has-lookup-some x c n e) refl
      ]

  converted-Reassigned :
      (v : VersionedComponent) (hash hypervisor_name : String)
      → SortKeeps
      → Reassigned v hypervisor_name
          (from_component codecs (record (converted v hash) { hypervisor_name = hypervisor_name }))
  unfolding export
  converted-Reassigned v hash hypervisor_name sorts = record {
    assigned = refl;
    same_names = (refl, refl, refl, refl);
    same_marks = (refl, refl, refl, refl);
    same_cluster = refl;
    same_role = λ known.
        ap convert_role (convert_role-IsRole v.spec.role known)
        ∙ convert_role-IsRole v.spec.role known;
    same_ports =
        import_ports-export codecs.json_marshal codecs.sha1_hex codecs.sort_strings sorts
          (record (converted v hash) { hypervisor_name = hypervisor_name });
    same_certificates = λ x. (
      certificates_kept x v.status.client_certificates,
      certificates_kept x v.status.server_certificates,
    );
    same_endpoints = (refl, refl);
    same_conditions = refl;
  }

  -- A component that is converted, given a hypervisor and converted back keeps all else, where
  -- sort.Strings keeps the elements of a list.
  pub from_component-Reassigned :
      (v : VersionedComponent) (c : Component) (hypervisor_name : String)
      → SortKeeps
      → to_component codecs v ≡ ok c
      → Reassigned v hypervisor_name
          (from_component codecs (record c { hypervisor_name = hypervisor_name }))
  unfolding new_component_from_v1alpha1
  from_component-Reassigned v c hypervisor_name sorts e =
      let (hash, same) = refreshed (converted v "") c e in
      subst
        (λ (z : Component).
          Reassigned v hypervisor_name
            (from_component codecs (record z { hypervisor_name = hypervisor_name })))
        same (converted-Reassigned v hash hypervisor_name sorts)

  pub role-to_component :
      (v : VersionedComponent) (c : Component)
      → to_component codecs v ≡ ok c
      → IsRole v.spec.role
      → c.role ≡ v.spec.role
  unfolding new_component_from_v1alpha1
  role-to_component v c e known =
      let (hash, same) = refreshed (converted v "") c e in
      ap (λ (z : Component). z.role) (sym same) ∙ convert_role-IsRole v.spec.role known

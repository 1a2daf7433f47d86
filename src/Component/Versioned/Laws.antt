-- ===== src/Component/Versioned/Laws.antt =====
-- Conversions of components, and the test that decides whether a component is written back.
use oneinfra.Base.{
  ℕ, String, ◌≡◌, refl, ap, ◌∙◌, subst, inl, inr, false, none, some, List, [], ◌∷◌, arith, eq_iff,
  eq_refl, if◌then◌else◌, Option-cases,
}
use oneinfra.Base.Errors.{ok_inj, Result-cases, Result, ok}
use oneinfra.Conditions.{ConditionList}
use oneinfra.Dict
use oneinfra.Dict.{Dict}
use oneinfra.Utils.Laws.{contains}
use oneinfra.Component.{Component}
use oneinfra.Component.Versioned.{
  VersionedComponent, import_ports, names, port_of, export_ports, export, json_specs,
  refresh_cached_specs, is_dirty, new_component_from_v1alpha1,
}

lookup-import_ports :
    (m res : Dict ℕ) (x : String) (l : List String)
    → Dict.lookup x (import_ports res (export_ports m l))
      ≡ (if contains x l then some (port_of m x) else Dict.lookup x res)
unfolding import_ports export_ports
lookup-import_ports m res x [] = refl
lookup-import_ports m res x (y ∷ l) = ground (
  arith,
  lookup-import_ports m (Dict.insert y (port_of m y) res) x l,
  Dict.lookup-insert y x (port_of m y) res,
  eq_iff y x,
)

contains-names : (x : String) (m : Dict ℕ) → contains x (names m) ≡ Dict.has x m
unfolding Dict.has
contains-names x [] = refl
contains-names x ((y, v) ∷ m) = ground (arith, contains-names x m)

port_of-has :
    (x : String) (m : Dict ℕ)
    → (if Dict.has x m then some (port_of m x) else none) ≡ Dict.lookup x m
port_of-has x m = elim (Option-cases (Dict.lookup x m)) [
  | inl e ↦ rw (Dict.has-lookup-none x m e, e)
  | inr (p, e) ↦ rw (Dict.has-lookup-some x p m e, e) (ap some (rw (e, port_of)))
]

module _ (json_marshal : VersionedComponent → Result String) (sha1_hex : String → String)
    (sort_strings : List String → List String) where
  refresh-not_dirty :
      (c d : Component)
      → refresh_cached_specs json_marshal sha1_hex sort_strings c ≡ ok d
      → is_dirty json_marshal sha1_hex sort_strings d ≡ ok false
  unfolding refresh_cached_specs is_dirty json_specs export
  refresh-not_dirty c d e = elim (Result-cases (json_specs json_marshal sha1_hex sort_strings c)) [
    | inl (s, es) ↦
        subst (λ z. is_dirty json_marshal sha1_hex sort_strings z ≡ ok false) (ok_inj (rw es at e))
          (rw (es, eq_refl (sha1_hex s)))
    | inr (x, es) ↦ absurd (ground (arith, rw es at e))
  ]

  -- A component that was converted without an error is not dirty.
  pub is_dirty-new_component_from_v1alpha1 :
      (v : VersionedComponent) (c : Component)
      → new_component_from_v1alpha1 json_marshal sha1_hex sort_strings v ≡ ok c
      → is_dirty json_marshal sha1_hex sort_strings c ≡ ok false
  unfolding new_component_from_v1alpha1
  is_dirty-new_component_from_v1alpha1 v c e = refresh-not_dirty _ c e

  -- Conditions do not make a component dirty.
  pub is_dirty-conditions :
      (c : Component) (l : ConditionList)
      → is_dirty json_marshal sha1_hex sort_strings (record c { conditions = l })
        ≡ is_dirty json_marshal sha1_hex sort_strings c
  unfolding is_dirty json_specs export
  is_dirty-conditions c l = refl

  -- Where sort.Strings keeps the elements of a list, exporting a component and importing its
  -- host ports gives back the port of each name.
  pub import_ports-export :
      ((x : String) (l : List String) → contains x (sort_strings l) ≡ contains x l)
      → (c : Component) (x : String)
      → Dict.lookup x (
          import_ports [] (export json_marshal sha1_hex sort_strings c).status.allocated_host_ports)
        ≡ Dict.lookup x c.allocated_host_ports
  unfolding export Dict.lookup
  import_ports-export same c x =
      let m : Dict ℕ = c.allocated_host_ports in
      lookup-import_ports m [] x (sort_strings (names m))
      ∙ rw (same x (names m), contains-names x m) (port_of-has x m)

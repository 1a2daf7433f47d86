-- ===== src/Components/Store.antt =====
-- Reads after writes in the store of the components.
use oneinfra.Base.{
  String, ◌≡◌, sym, ap, ap₂, ◌∙◌, subst, inl, inr, Option, none, some, [], ◌∷◌, arith, eq_iff,
  eq_refl, Bool-cases,
}
use oneinfra.Base.Errors.{ok_inj, some_inj, ok}
use oneinfra.Base.Actions.{err_ne_ok}
use oneinfra.Component.{Component}
use oneinfra.Component.Listing.{ComponentList}
use oneinfra.Components.{is_component, or_panic, find_component, put_component}

pub find_component-key :
    (namespace name : String) (l : ComponentList) (c : Component)
    → find_component namespace name l ≡ some c
    → (c.namespace ≡ namespace) × (c.name ≡ name)
unfolding find_component
find_component-key namespace name [] c e = absurd (ground (arith, e))
find_component-key namespace name (d ∷ l) c e = elim (Bool-cases (is_component namespace name d)) [
  | inl here ↦
      (let d_is_c : d ≡ c = some_inj (ground (arith, here, e)) in
        subst (λ (z : Component). (z.namespace ≡ namespace) × (z.name ≡ name)) d_is_c
          (ground (arith, here, eq_iff d.namespace namespace, eq_iff d.name name)))
  | inr there ↦ find_component-key namespace name l c (ground (arith, there, e))
]

pub find_component-put_component :
    (changed c : Component) (l : ComponentList)
    → find_component changed.namespace changed.name l ≡ some c
    → find_component changed.namespace changed.name (put_component changed l) ≡ some changed
unfolding find_component put_component
find_component-put_component changed c [] e = absurd (ground (arith, e))
find_component-put_component changed c (d ∷ l) e =
    elim (Bool-cases (is_component changed.namespace changed.name d)) [
      | inl here ↦ rw here (ground (arith, eq_refl changed.namespace, eq_refl changed.name))
      | inr there ↦
          rw (there, there) (find_component-put_component changed c l (ground (arith, there, e)))
    ]

pub or_panic-ok : {A : Type 0} (o : Option A) (a : A) → or_panic o ≡ ok a → o ≡ some a
or_panic-ok none a e = absurd (err_ne_ok _ a e)
or_panic-ok (some b) a e = ap some (ok_inj e)

-- A component that is written back under its key is found there.
pub find_component-written :
    (namespace name : String) (l : ComponentList) (c c' : Component)
    → find_component namespace name l ≡ some c
    → c'.namespace ≡ c.namespace
    → c'.name ≡ c.name
    → find_component namespace name (put_component c' l) ≡ some c'
find_component-written namespace name l c c' f same_namespace same_name =
    let (key_namespace, key_name) = find_component-key namespace name l c f in
    let its_namespace : c'.namespace ≡ namespace = same_namespace ∙ key_namespace in
    let its_name : c'.name ≡ name = same_name ∙ key_name in
    let found : find_component c'.namespace c'.name l ≡ some c =
      ap₂ (λ a b. find_component a b l) its_namespace its_name ∙ f in
    sym (ap₂ (λ a b. find_component a b (put_component c' l)) its_namespace its_name)
    ∙ find_component-put_component c' c l found

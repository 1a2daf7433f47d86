-- ===== src/Dict.antt =====
-- Go's `map[string]V` as the list of its entries, in the order in which a `range` loop meets them.
-- A write to a key that is there keeps the order; a new key comes last.
use oneinfra.Base.{
  ◌+◌, String, ◌≡◌, refl, Bool, true, false, Option, none, some, List, [], ◌∷◌, arith, ◌==◌, eq_iff,
  if◌then◌else◌, length,
}

abbrev pub Dict {ℓ} : Type ℓ → Type ℓ
Dict V = List (String × V)

module _ {ℓ} {V : Type ℓ} where
  -- v, exists := m[k]
  unfoldable pub lookup : String → Dict V → Option V
  lookup key [] = none
  lookup key ((name, value) ∷ rest) = if name == key then some value else lookup key rest

  -- m[k] = v
  unfoldable pub insert : String → V → Dict V → Dict V
  insert key value [] = (key, value) ∷ []
  insert key value ((name, old) ∷ rest) =
      if name == key then (key, value) ∷ rest else (name, old) ∷ insert key value rest

  -- delete(m, k)
  unfoldable pub delete : String → Dict V → Dict V
  delete key [] = []
  delete key ((name, old) ∷ rest) =
      if name == key then delete key rest else (name, old) ∷ delete key rest

  -- _, exists := m[k]
  unfoldable pub has : String → Dict V → Bool
  has key [] = false
  has key ((name, old) ∷ rest) = if name == key then true else has key rest

  pub lookup-nil : (key : String) → lookup key [] ≡ none
  unfolding lookup
  lookup-nil key = refl

  pub lookup-insert :
      (key name : String) (value : V) (rest : Dict V)
      → lookup name (insert key value rest) ≡ (if key == name then some value else lookup name rest)
  unfolding lookup insert
  lookup-insert key name value [] = refl
  lookup-insert key name value ((first, old) ∷ rest) = ground (
    arith,
    eq_iff key name,
    eq_iff first key,
    eq_iff first name,
    lookup-insert key name value rest,
  )

  pub lookup-delete :
      (key name : String) (rest : Dict V)
      → lookup name (delete key rest) ≡ (if key == name then none else lookup name rest)
  unfolding lookup delete
  lookup-delete key name [] = ground arith
  lookup-delete key name ((first, old) ∷ rest) =
      ground
        (arith, eq_iff key name, eq_iff first key, eq_iff first name, lookup-delete key name rest)

  pub has-lookup-none :
      (key : String) (rest : Dict V) → lookup key rest ≡ none → has key rest ≡ false
  unfolding lookup has
  has-lookup-none key [] h = refl
  has-lookup-none key ((name, old) ∷ rest) h = ground (arith, has-lookup-none key rest)

  pub has-lookup-some :
      (key : String) (value : V) (rest : Dict V)
      → lookup key rest ≡ some value
      → has key rest ≡ true
  unfolding lookup has
  has-lookup-some key value [] h = cc
  has-lookup-some key value ((name, old) ∷ rest) h = ground (arith, has-lookup-some key value rest)

  pub has-insert :
      (key name : String) (value : V) (rest : Dict V)
      → has name (insert key value rest) ≡ (if key == name then true else has name rest)
  unfolding has insert
  has-insert key name value [] = refl
  has-insert key name value ((first, old) ∷ rest) =
      ground (
        arith,
        eq_iff key name,
        eq_iff first key,
        eq_iff first name,
        has-insert key name value rest,
      )

  pub length-insert :
      (key : String) (value : V) (rest : Dict V)
      → length (insert key value rest) ≡ length rest + (if has key rest then 0 else 1)
  unfolding insert has
  length-insert key value [] = omega arith
  length-insert key value ((name, old) ∷ rest) = ground (arith, length-insert key value rest)

pub ruleset dict_laws = (lookup-insert, lookup-delete, has-insert)

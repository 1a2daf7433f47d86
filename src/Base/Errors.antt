-- ===== src/Base/Errors.antt =====
-- Go's `error` values, the pair of a result and an error, and actions on a mutable state.
use Prim.Native.String.{String}
use mathlib.Core.Path.{◌≡◌, refl, ap}
use mathlib.Core.List.{List}
use mathlib.Core.Logic.{◌⊎◌, inl, inr}
use mathlib.Core.Option.{Option, none, some}

-- An error made by `errors.New` or `errors.Errorf`, as its format and arguments, or wrapped.
pub data Error : Type 0 where
  errorf : String → List String → Error
  wrap : Error → String → List String → Error

-- A function that returns `(T, error)`.
pub data Result {ℓ} (A : Type ℓ) : Type ℓ where
  ok : A → Result A
  err : Error → Result A

infixl 10 ◌>>=◌
abbrev pub ◌>>=◌ {ℓ κ} : {A : Type ℓ} {B : Type κ} → Result A → (A → Result B) → Result B
ok a >>= f = f a
err e >>= f = err e

-- What a method on `S` leaves behind: its results, and the object, changed also if it failed.
abbrev pub Exec {ℓ} : Type ℓ → Type ℓ → Type ℓ
Exec S A = S → Result A × S

-- `if err := …; err != nil { return err }` of a function that returns only an error.
abbrev pub or_error {ℓ} : {A : Type ℓ} → Option Error → Result A → Result A
or_error none r = r
or_error (some e) r = err e

pub Result-cases {ℓ} :
    {A : Type ℓ} (r : Result A) → ((a : A) × (r ≡ ok a)) ⊎ ((e : Error) × (r ≡ err e))
Result-cases (ok a) = inl (a, refl)
Result-cases (err e) = inr (e, refl)

abbrev ok_or {ℓ} : {A : Type ℓ} → A → Result A → A
ok_or d (ok a) = a
ok_or d (err e) = d

pub ok_inj {ℓ} : {A : Type ℓ} {a b : A} → ok a ≡ ok b → a ≡ b
ok_inj {a} e = ap (ok_or a) e

abbrev some_or {ℓ} : {A : Type ℓ} → A → Option A → A
some_or d (some a) = a
some_or d none = d

pub some_inj {ℓ} : {A : Type ℓ} {a b : A} → some a ≡ some b → a ≡ b
some_inj {a} e = ap (some_or a) e

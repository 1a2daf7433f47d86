-- ===== src/Base/Actions.antt =====
-- Chains of calls on a mutable state, each of which may fail: `if err != nil { return err }` after a
-- call, and the rules to prove what a chain leaves behind.
use oneinfra.Base.Errors.{Exec, Result, Error, ok, err}
use mathlib.Core.Path.{◌≡◌, refl}
use native.Mathlib.Omega.{arith}
use mathlib.Core.Bool.{Bool, true, false}

pub err_ne_ok : {A : Type 0} (e : Error) (a : A) → err e ≡ ok a → ⊥
err_ne_ok e a h = ground arith

module _ {S A : Type 0} where
  abbrev pub pure : A → Exec S A
  pure a s = (ok a, s)

  abbrev pub raise : Error → Exec S A
  raise e s = (err e, s)

  abbrev pub lift : Result A → Exec S A
  lift r s = (r, s)

  -- What follows a call that has returned.
  abbrev pub continue : {B : Type 0} → Result A × S → (A → Exec S B) → Result B × S
  continue (ok a, s) f = f a s
  continue (err e, s) f = (err e, s)

-- if test { … } else { … }: only the branch taken runs.
abbrev pub choose : {S A : Type 0} → Bool → Exec S A → Exec S A → Exec S A
choose true m k s = m s
choose false m k s = k s

infixl 10 ◌>>=◌
abbrev pub ◌>>=◌ : {S A B : Type 0} → Exec S A → (A → Exec S B) → Exec S B
◌>>=◌ m f s = continue (m s) f

infixl 10 ◌>>◌
abbrev pub ◌>>◌ : {S A B : Type 0} → Exec S A → Exec S B → Exec S B
m >> k = m >>= λ _. k

module _ {S A : Type 0} where
  -- If the call succeeds, its result and the state after it are related so.
  abbrev pub Ensures : (S → Type 0) → Exec S A → (A → S → Type 0) → Type 0
  Ensures P m Q = (s : S) → P s → (a : A) → (m s).0 ≡ ok a → Q a (m s).1

  -- Whatever the call returns, it keeps a property of the state.
  abbrev pub Keeps : (S → Type 0) → Exec S A → Type 0
  Keeps P m = (s : S) → P s → P (m s).1

module _ {S A B : Type 0} where
  continue-Ensures :
      (Q : A → S → Type 0) (R : B → S → Type 0) (f : A → Exec S B)
      → ((a : A) → Ensures (Q a) (f a) R)
      → (r : Result A × S) → ((a : A) → r.0 ≡ ok a → Q a r.1)
      → (b : B) → (continue r f).0 ≡ ok b
      → R b (continue r f).1
  continue-Ensures Q R f hf (ok a, s) hq b e = hf a s (hq a refl) b e
  continue-Ensures Q R f hf (err x, s) hq b e = absurd (err_ne_ok x b e)

  continue-Keeps :
      (P : S → Type 0) (f : A → Exec S B)
      → ((a : A) → Keeps P (f a))
      → (r : Result A × S) → P r.1
      → P (continue r f).1
  continue-Keeps P f hf (ok a, s) h = hf a s h
  continue-Keeps P f hf (err x, s) h = h

  pub >>=-Ensures :
      (P : S → Type 0) (Q : A → S → Type 0) (R : B → S → Type 0)
      → (m : Exec S A) (f : A → Exec S B) → Ensures P m Q
      → ((a : A) → Ensures (Q a) (f a) R)
      → Ensures P (m >>= f) R
  >>=-Ensures P Q R m f hm hf s p b e = continue-Ensures Q R f hf (m s) (hm s p) b e

  pub >>=-Keeps :
      (P : S → Type 0) (m : Exec S A) (f : A → Exec S B)
      → Keeps P m
      → ((a : A) → Keeps P (f a))
      → Keeps P (m >>= f)
  >>=-Keeps P m f hm hf s p = continue-Keeps P f hf (m s) (hm s p)

  continue-Leaves :
      (R : S → Type 0) (Q : A → S → Type 0) (f : A → Exec S B)
      → ((a : A) (s : S) → Q a s → R (f a s).1)
      → (r : Result A × S) → R r.1
      → ((a : A) → r.0 ≡ ok a → Q a r.1)
      → R (continue r f).1
  continue-Leaves R Q f hf (ok a, s) p q = hf a s (q a refl)
  continue-Leaves R Q f hf (err x, s) p q = p

  -- What holds afterwards, whatever is returned, where the second action needs what the first one
  -- ensures.
  pub >>=-Leaves :
      (P R : S → Type 0) (Q : A → S → Type 0) (m : Exec S A) (f : A → Exec S B)
      → ((s : S) → P s → R (m s).1)
      → Ensures P m Q
      → ((a : A) (s : S) → Q a s → R (f a s).1)
      → (s : S) → P s
      → R ((m >>= f) s).1
  >>=-Leaves P R Q m f hm he hf s p = continue-Leaves R Q f hf (m s) (hm s p) (λ a e. he s p a e)

module _ {S A : Type 0} where
  pub choose-Ensures :
      (P : S → Type 0) (R : A → S → Type 0) (b : Bool) (m k : Exec S A)
      → (b ≡ true → Ensures P m R)
      → (b ≡ false → Ensures P k R)
      → Ensures P (choose b m k) R
  choose-Ensures P R true m k hm hk s p a e = hm refl s p a e
  choose-Ensures P R false m k hm hk s p a e = hk refl s p a e

  pub choose-Keeps :
      (P : S → Type 0) (b : Bool) (m k : Exec S A) → Keeps P m → Keeps P k → Keeps P (choose b m k)
  choose-Keeps P true m k hm hk s p = hm s p
  choose-Keeps P false m k hm hk s p = hk s p

module _ {S A B : Type 0} where
  continue-Leads :
      (Q R : S → Type 0) (f : A → Exec S B)
      → ((s : S) → Q s → R s)
      → ((a : A) (s : S) → Q s → R (f a s).1)
      → (r : Result A × S) → Q r.1
      → R (continue r f).1
  continue-Leads Q R f stop go (ok a, s) q = go a s q
  continue-Leads Q R f stop go (err e, s) q = stop s q

  -- From a property before the call to one after the whole chain, also if the call fails.
  pub >>=-Leads :
      (Q R : S → Type 0) (m : Exec S A) (f : A → Exec S B) (s : S)
      → Q (m s).1
      → ((s : S) → Q s → R s)
      → ((a : A) (s : S) → Q s → R (f a s).1)
      → R ((m >>= f) s).1
  >>=-Leads Q R m f s q stop go = continue-Leads Q R f stop go (m s) q

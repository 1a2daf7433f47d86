-- ===== src/Base/Perms.antt =====
-- Runs of consecutive numbers, and lists without repetition.
use Prim.Native.Nat.{ℕ, zero, suc, ◌+◌, ◌≤◌, ◌<◌}
use mathlib.Core.Path.{◌≡◌, ap, ◌∙◌}
use mathlib.Core.Logic.Or
use mathlib.Core.List.{
  List, [], ◌∷◌, ◌++◌, Mem, Nodup, mem-cons, not-mem-nil, Nodup-cons, Nodup-nil,
}
use native.Mathlib.Bridge.{le_prop}
use native.Mathlib.Omega.{arith}

-- lo, lo + 1, …, lo + n - 1
abbrev pub range_from : ℕ → ℕ → List ℕ
range_from lo zero = []
range_from lo (suc n) = lo ∷ range_from (suc lo) n

pub range_from-snoc : (lo n : ℕ) → range_from lo (suc n) ≡ range_from lo n ++ (lo + n) ∷ []
range_from-snoc lo zero = ap (λ (k : ℕ). k ∷ []) (omega arith)
range_from-snoc lo (suc n) =
    ap (λ t. lo ∷ t)
      (range_from-snoc (suc lo) n ∙ ap (λ (k : ℕ). range_from (suc lo) n ++ k ∷ []) (omega arith))

pub mem-range_from : (a lo n : ℕ) → Mem a (range_from lo n) → (lo ≤ a) × (a < lo + n)
mem-range_from a lo zero m = absurd (not-mem-nil m)
mem-range_from a lo (suc n) m = (
  Or.elim le_prop (mem-cons.0 m) (λ e. omega arith)
      (λ r. omega (arith, (mem-range_from a (suc lo) n r).0)),
  Or.elim le_prop (mem-cons.0 m) (λ e. omega arith)
      (λ r. omega (arith, (mem-range_from a (suc lo) n r).1)),
)

pub range_from-Nodup : (lo n : ℕ) → Nodup (range_from lo n)
range_from-Nodup lo zero = Nodup-nil
range_from-Nodup lo (suc n) =
    Nodup-cons.1 (
      (λ m. absurd (omega (arith, (mem-range_from lo (suc lo) n m).0))),
      range_from-Nodup (suc lo) n,
    )

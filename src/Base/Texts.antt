-- ===== src/Base/Texts.antt =====
-- Texts joined end to end, and their code points as lists, which proofs can take apart.
use Prim.Native.Char.{code}
use Prim.Native.String
use Prim.Native.String.append
use Prim.Native.String.{String}
use mathlib.Core.Path.{◌≡◌, ap, ◌∙◌}
use mathlib.Core.List.{List, [], ◌∷◌, ◌++◌, reverse, reverse-append}
use Prim.Native.Nat.{ℕ}
use text.Mathlib.TextLemmas.{append_cancel_left, append_cancel_right}

-- fmt.Sprintf("%s%s", s, t)
abbrev pub concat : String → String → String
concat s t = String.◌++◌ s t

pub concat_cancel_left : (s t u : String) → concat s t ≡ concat s u → t ≡ u
concat_cancel_left s t u e = append_cancel_left s t u e

pub concat_cancel_right : (s t u : String) → concat s u ≡ concat t u → s ≡ t
concat_cancel_right s t u e = append_cancel_right s t u e

abbrev pub code_points : String → List ℕ
code_points String.[] = []
code_points (String.◌∷◌ letter rest) = code letter ∷ code_points rest

pub code_points-concat : (s t : String) → code_points (concat s t) ≡ code_points s ++ code_points t
code_points-concat String.[] t = ap code_points (append.nil t)
code_points-concat (String.◌∷◌ c s) t =
    ap code_points (append.cons c s t) ∙ ap (λ l. code c ∷ l) (code_points-concat s t)

-- The code points from the last to the first: what a suffix decides.
pub reverse-code_points-concat :
    (s t : String)
    → reverse (code_points (concat s t)) ≡ reverse (code_points t) ++ reverse (code_points s)
reverse-code_points-concat s t =
    ap reverse (code_points-concat s t) ∙ reverse-append (code_points s) (code_points t)

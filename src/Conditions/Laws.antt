-- ===== src/Conditions/Laws.antt =====
-- Condition lists as dictionaries from a type to its condition.
use oneinfra.Base.{
  ℕ, suc, String, ◌≡◌, refl, sym, ◌≢◌, Bool, false, not, ◌&&◌, ◌||◌, Option, none, some, [], ◌∷◌,
  ◌++◌, append_assoc, append-nil, arith, ◌==◌, eq_iff, if◌then◌else◌,
}
use oneinfra.Conditions.{
  Condition, ConditionList, SetLoop, is_condition, bare_condition, set_body, set_loop,
}

-- The condition of a type: the first one, as in IsCondition.
abbrev pub find : String → ConditionList → Option Condition
find t [] = none
find t (c ∷ l) = if c.condition_type == t then some c else find t l

abbrev pub has_status : Option Condition → String → Bool
has_status none s = false
has_status (some c) s = c.status == s

pub is_condition-find :
    (l : ConditionList) (t s : String) → is_condition l t s ≡ has_status (find t l) s
unfolding is_condition
is_condition-find [] t s = refl
is_condition-find (c ∷ l) t s = ground (arith, is_condition-find l t s)

-- No two conditions have one type.
abbrev pub DistinctTypes : ConditionList → Type 0
DistinctTypes [] = Unit
DistinctTypes (c ∷ l) = (find c.condition_type l ≡ none) × DistinctTypes l

pub find-append : (t : String) (l m : ConditionList) → find t l ≡ none → find t (l ++ m) ≡ find t m
find-append t [] m h = refl
find-append t (c ∷ l) m h = ground (arith, find-append t l m)

pub find-append_some :
    (t : String) (c : Condition) (l m : ConditionList)
    → find t l ≡ some c
    → find t (l ++ m) ≡ some c
find-append_some t c [] m h = cc
find-append_some t c (d ∷ l) m h = ground (arith, find-append_some t c l m)

pub find-append_other :
    (t : String) (l : ConditionList) (c : Condition)
    → (c.condition_type == t) ≡ false
    → find t (l ++ c ∷ []) ≡ find t l
find-append_other t [] c h = rw h
find-append_other t (d ∷ l) c h = ground (arith, find-append_other t l c h)

module _ (now : ℕ → ℕ) (t s : String) where
  -- What the loop makes of the list, from the i-th reading of the clock on.
  unfoldable pub rewritten : ℕ → ConditionList → ConditionList
  rewritten i [] = []
  rewritten i (c ∷ l) =
      if c.condition_type == t
      then (if c.status == s
          then bare_condition c.condition_type c.status c.last_transition_time (now i)
            ∷ rewritten (suc i) l
          else rewritten i l)
      else c ∷ rewritten i l

  unfoldable pub any_match : ConditionList → Bool
  any_match [] = false
  any_match (c ∷ l) = (c.condition_type == t && c.status == s) || any_match l

  pub new_list-set_loop :
      (st : SetLoop) (l : ConditionList)
      → (set_loop now t s st l).new_list ≡ st.new_list ++ rewritten st.readings l
  unfolding set_loop rewritten
  new_list-set_loop st [] = sym (append-nil st.new_list)
  new_list-set_loop st (c ∷ l) = ground (
    arith,
    new_list-set_loop (set_body now t s c st) l,
    append_assoc st.new_list (c ∷ []) (rewritten st.readings l),
    append_assoc st.new_list
        (bare_condition c.condition_type c.status c.last_transition_time (now st.readings) ∷ [])
        (rewritten (suc st.readings) l),
  )

  pub transitioning-set_loop :
      (st : SetLoop) (l : ConditionList)
      → (set_loop now t s st l).is_transitioning ≡ (st.is_transitioning && not (any_match l))
  unfolding set_loop any_match
  transitioning-set_loop st [] = ground arith
  transitioning-set_loop st (c ∷ l) =
      ground (arith, transitioning-set_loop (set_body now t s c st) l)

  pub find-rewritten-none :
      (i : ℕ) (l : ConditionList) → any_match l ≡ false → find t (rewritten i l) ≡ none
  unfolding rewritten any_match
  find-rewritten-none i [] h = refl
  find-rewritten-none i (c ∷ l) h = ground (arith, find-rewritten-none i l)

  pub find-rewritten_other :
      (t' : String) (i : ℕ) (l : ConditionList) → t ≢ t' → find t' (rewritten i l) ≡ find t' l
  unfolding rewritten
  find-rewritten_other t' i [] ne = refl
  find-rewritten_other t' i (c ∷ l) ne = ground (
    arith,
    find-rewritten_other t' i l ne,
    find-rewritten_other t' (suc i) l ne,
    eq_iff c.condition_type t,
    eq_iff c.condition_type t',
  )

  -- Without a condition of type t the loop changes nothing.
  pub rewritten-absent : (i : ℕ) (l : ConditionList) → find t l ≡ none → rewritten i l ≡ l
  unfolding rewritten
  rewritten-absent i [] h = refl
  rewritten-absent i (c ∷ l) h = ground (arith, rewritten-absent i l)

  pub any_match-absent : (l : ConditionList) → find t l ≡ none → any_match l ≡ false
  unfolding any_match
  any_match-absent [] h = refl
  any_match-absent (c ∷ l) h = ground (arith, any_match-absent l)

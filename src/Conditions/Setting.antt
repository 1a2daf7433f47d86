-- ===== src/Conditions/Setting.antt =====
-- SetCondition and DropCondition against the dictionary of conditions.
use oneinfra.Base.{
  ℕ, suc, String, ◌≡◌, refl, sym, ◌∙◌, subst, ◌≢◌, inl, inr, true, false, not, Option, none, some,
  [], ◌∷◌, ◌++◌, append_assoc, append-nil, arith, ◌==◌, eq_iff, eq_refl, if◌then◌else◌, Bool-cases,
  eq-false_of_ne, keep,
}
use oneinfra.Conditions.{
  drop_condition, drop_loop, Condition, ConditionList, SetLoop, is_condition, bare_condition,
  set_body, set_loop, set_condition,
}
use oneinfra.Conditions.Laws.{
  find-append_other, find, has_status, is_condition-find, DistinctTypes, find-append, rewritten,
  any_match, new_list-set_loop, transitioning-set_loop, find-rewritten-none, find-rewritten_other,
  any_match-absent,
}

module _ (now : ℕ → ℕ) (t s : String) where
  readings-set_loop :
      (st : SetLoop) (l : ConditionList)
      → any_match now t s l ≡ false
      → (set_loop now t s st l).readings ≡ st.readings
  unfolding set_loop any_match
  readings-set_loop st [] h = refl
  readings-set_loop st (c ∷ l) h = ground (arith, readings-set_loop (set_body now t s c st) l)

  set_condition-rewritten :
      (l : ConditionList)
      → set_condition now l t s ≡ (
          if any_match now t s l
          then rewritten now t s 0 l
          else rewritten now t s 0 l ++ bare_condition t s (now 0) (now 0) ∷ [])
  unfolding set_condition
  set_condition-rewritten l =
      let start : SetLoop = record { is_transitioning = true; new_list = []; readings = 0 } in
      ground (
        arith,
        new_list-set_loop now t s start l,
        transitioning-set_loop now t s start l,
        readings-set_loop start l,
      )

  status-rewritten :
      (s' : String) (i : ℕ) (l : ConditionList)
      → any_match now t s l ≡ true
      → has_status (find t (rewritten now t s i l)) s' ≡ (s == s')
  unfolding rewritten any_match
  status-rewritten s' i [] h = cc
  status-rewritten s' i (c ∷ l) h =
      ground (arith, status-rewritten s' i l, eq_iff c.status s, eq_iff c.status s', eq_iff s s')

  find-bare : (i j : ℕ) → find t (bare_condition t s i j ∷ []) ≡ some (bare_condition t s i j)
  find-bare i j = simp eq_refl

  -- After SetCondition a status holds of the type exactly if it is the one that was set.
  pub is_condition-set_condition_self :
      (s' : String) (l : ConditionList) → is_condition (set_condition now l t s) t s' ≡ (s == s')
  is_condition-set_condition_self s' l =
      rw (is_condition-find (set_condition now l t s) t s', set_condition-rewritten l)
        (elim (Bool-cases (any_match now t s l)) [
          | inl e ↦ rw e (status-rewritten s' 0 l e)
          | inr e ↦ rw (
            e,
            find-append t (rewritten now t s 0 l) (bare_condition t s (now 0) (now 0) ∷ [])
                (find-rewritten-none now t s 0 l e),
            find-bare (now 0) (now 0),
          )
        ])

  -- SetCondition changes nothing for a type other than its own.
  find-set_condition_other :
      (t' : String) (l : ConditionList) → t ≢ t' → find t' (set_condition now l t s) ≡ find t' l
  find-set_condition_other t' l ne =
      rw (set_condition-rewritten l) (elim (Bool-cases (any_match now t s l)) [
        | inl e ↦ rw e (find-rewritten_other now t s t' 0 l ne)
        | inr e ↦ rw e (
            find-append_other t' (rewritten now t s 0 l) _ (eq-false_of_ne t t' ne)
            ∙ find-rewritten_other now t s t' 0 l ne)
      ])

  -- The time at which the type came to the status that is set.
  abbrev pub transition_time : Option Condition → ℕ
  transition_time none = now 0
  transition_time (some c) = if c.status == s then c.last_transition_time else now 0

  transition_time-no_match :
      (l : ConditionList) → any_match now t s l ≡ false → transition_time (find t l) ≡ now 0
  unfolding any_match
  transition_time-no_match [] h = refl
  transition_time-no_match (c ∷ l) h = ground (arith, transition_time-no_match l)

  find-rewritten_self :
      (i : ℕ) (l : ConditionList)
      → DistinctTypes l
      → any_match now t s l ≡ true
      → find t (rewritten now t s i l)
        ≡ some (bare_condition t s (transition_time (find t l)) (now i))
  unfolding rewritten any_match
  find-rewritten_self i [] d h = cc
  find-rewritten_self i (c ∷ l) d h = elim (Bool-cases (c.condition_type == t)) [
    | inl e ↦
        let same = (eq_iff c.condition_type t).0 e in
        let absent : find t l ≡ none = subst (λ u. find u l ≡ none) same d.0 in
        ground (arith, e, same, any_match-absent now t s l absent, eq_iff c.status s)
    | inr e ↦ rw e (rw e (find-rewritten_self i l d.1 (rw e at h)))
  ]

  -- Where no two conditions of a list have one type, SetCondition leaves the condition of its
  -- type with the status and the time of the call; the transition time is kept exactly if the
  -- status was already set.
  pub find-set_condition_self :
      (l : ConditionList)
      → DistinctTypes l
      → find t (set_condition now l t s)
        ≡ some (bare_condition t s (transition_time (find t l)) (now 0))
  find-set_condition_self l d =
      rw (set_condition-rewritten l) (elim (Bool-cases (any_match now t s l)) [
        | inl e ↦ rw e (find-rewritten_self 0 l d e)
        | inr e ↦ rw (
          e,
          find-append t (rewritten now t s 0 l) (bare_condition t s (now 0) (now 0) ∷ [])
              (find-rewritten-none now t s 0 l e),
          find-bare (now 0) (now 0),
          transition_time-no_match l e,
        )
      ])

  find-rewritten_absent :
      (u : String) (i : ℕ) (l : ConditionList)
      → find u l ≡ none
      → find u (rewritten now t s i l) ≡ none
  unfolding rewritten
  find-rewritten_absent u i [] h = refl
  find-rewritten_absent u i (c ∷ l) h =
      ground (arith, find-rewritten_absent u i l, find-rewritten_absent u (suc i) l)

  rewritten-DistinctTypes :
      (i : ℕ) (l : ConditionList) → DistinctTypes l → DistinctTypes (rewritten now t s i l)
  unfolding rewritten
  rewritten-DistinctTypes i [] d = tt
  rewritten-DistinctTypes i (c ∷ l) d = ground (
    arith,
    rewritten-DistinctTypes i l d.1,
    rewritten-DistinctTypes (suc i) l d.1,
    find-rewritten_absent c.condition_type i l d.0,
    find-rewritten_absent c.condition_type (suc i) l d.0,
  )

  snoc-DistinctTypes :
      (c : Condition) (l : ConditionList)
      → find c.condition_type l ≡ none
      → DistinctTypes l
      → DistinctTypes (l ++ c ∷ [])
  snoc-DistinctTypes c [] h d = (refl, tt)
  snoc-DistinctTypes c (b ∷ l) h d = elim (Bool-cases (b.condition_type == c.condition_type)) [
    | inl e ↦ absurd (ground (arith, rw e at h))
    | inr e ↦ (
      find-append_other b.condition_type l c (
            ground (
              arith,
              eq_iff b.condition_type c.condition_type,
              eq_iff c.condition_type b.condition_type,
            ))
          ∙ d.0,
      snoc-DistinctTypes c l (rw e at h) d.1,
    )
  ]

  -- SetCondition keeps the types of the list distinct.
  pub set_condition-DistinctTypes :
      (l : ConditionList) → DistinctTypes l → DistinctTypes (set_condition now l t s)
  set_condition-DistinctTypes l d =
      rw (set_condition-rewritten l) (elim (Bool-cases (any_match now t s l)) [
        | inl e ↦ rw e (rewritten-DistinctTypes 0 l d)
        | inr e ↦ rw e (
            snoc-DistinctTypes (bare_condition t s (now 0) (now 0)) (rewritten now t s 0 l)
              (find-rewritten-none now t s 0 l e) (rewritten-DistinctTypes 0 l d))
      ])

drop_loop_lem :
    (t : String) (done l : ConditionList)
    → drop_loop t done l ≡ done ++ keep (λ c. not (c.condition_type == t)) l
unfolding drop_loop
drop_loop_lem t done [] = sym (append-nil done)
drop_loop_lem t done (c ∷ l) = ground (
  arith,
  drop_loop_lem t done l,
  drop_loop_lem t (done ++ c ∷ []) l,
  append_assoc done (c ∷ []) (keep (λ (b : Condition). not (b.condition_type == t)) l),
)

find-keep :
    (t u : String) (l : ConditionList)
    → find u (keep (λ c. not (c.condition_type == t)) l) ≡ (if t == u then none else find u l)
find-keep t u [] = ground arith
find-keep t u (c ∷ l) =
    ground
      (arith, find-keep t u l, eq_iff t u, eq_iff c.condition_type t, eq_iff c.condition_type u)

-- DropCondition removes the conditions of its type and leaves the other types as they were.
pub find-drop_condition :
    (l : ConditionList) (t u : String)
    → find u (drop_condition l t) ≡ (if t == u then none else find u l)
unfolding drop_condition
find-drop_condition l t u = rw (drop_loop_lem t [] l) (find-keep t u l)

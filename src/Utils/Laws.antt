-- ===== src/Utils/Laws.antt =====
-- The list functions against the plain test of membership.
use oneinfra.Base.{
  String, ◌≡◌, refl, sym, ap, ap₂, ◌∙◌, subst, fun_ext, ◌↔◌, inl, inr, Bool, true, false, not, ◌&&◌,
  ◌||◌, List, [], ◌∷◌, ◌++◌, append_assoc, append-nil, arith, ◌==◌, eq_iff, eq_refl, if◌then◌else◌,
  Bool-cases, keep, All,
}
use oneinfra.Dict
use oneinfra.Dict.{Dict}
use oneinfra.Utils.{
  element_map, copy_loop, append_loop, any_loop, add_elements_to_list_if_not_exists,
  has_list_any_element, remove_elements_from_list,
}

abbrev pub contains : String → List String → Bool
contains x [] = false
contains x (y ∷ ys) = if y == x then true else contains x ys

contains-append :
    (x : String) (xs ys : List String) → contains x (xs ++ ys) ≡ (contains x xs || contains x ys)
contains-append x [] ys = refl
contains-append x (z ∷ xs) ys = ground (arith, contains-append x xs ys)

pub contains-keep :
    (x : String) (p : String → Bool) (xs : List String)
    → contains x (keep p xs) ≡ (contains x xs && p x)
contains-keep x p [] = refl
contains-keep x p (z ∷ xs) = elim (Bool-cases (z == x)) [
  | inl e ↦ rw ((eq_iff z x).0 e) (ground (arith, contains-keep x p xs, eq_refl x))
  | inr e ↦ rw e (ground (arith, contains-keep x p xs))
]

has-element_map :
    (x : String) (seen : Dict (Unit {0})) (l : List String)
    → Dict.has x (element_map seen l) ≡ (Dict.has x seen || contains x l)
unfolding element_map
has-element_map x seen [] = ground arith
has-element_map x seen (y ∷ ys) =
    ground (arith, has-element_map x (Dict.insert y tt seen) ys, Dict.has-insert y x tt seen)

copy_loop_lem : (res l : List String) → copy_loop res l ≡ res ++ l
unfolding copy_loop
copy_loop_lem res [] = sym (append-nil res)
copy_loop_lem res (x ∷ l) = copy_loop_lem (res ++ x ∷ []) l ∙ append_assoc res (x ∷ []) l

append_loop_lem :
    (seen : Dict (Unit {0})) (res l : List String)
    → append_loop seen res l ≡ res ++ keep (λ x. not (Dict.has x seen)) l
unfolding append_loop
append_loop_lem seen res [] = sym (append-nil res)
append_loop_lem seen res (x ∷ l) = elim (Bool-cases (Dict.has x seen)) [
  | inl e ↦ rw e (append_loop_lem seen res l)
  | inr e ↦ rw e (append_loop_lem seen (res ++ x ∷ []) l ∙ append_assoc res (x ∷ []) _)
]

-- RemoveElementsFromList keeps, in their order, the elements that are not among those to remove.
pub remove_elements_from_list_lem :
    (list elements : List String)
    → remove_elements_from_list list elements ≡ keep (λ x. not (contains x elements)) list
unfolding remove_elements_from_list Dict.has
remove_elements_from_list_lem list elements =
    append_loop_lem (element_map [] elements) [] list
    ∙ ap (λ (p : String → Bool). keep p list) (fun_ext λ x. ap not (has-element_map x [] elements))

-- An element is in the result exactly if it was in the list and is not removed.
pub contains-remove_elements_from_list :
    (x : String) (list elements : List String)
    → contains x (remove_elements_from_list list elements)
      ≡ (contains x list && not (contains x elements))
contains-remove_elements_from_list x list elements =
    rw (remove_elements_from_list_lem list elements)
      (contains-keep x (λ y. not (contains y elements)) list)

any_loop_lem :
    (seen : Dict (Unit {0})) (list : List String)
    → (any_loop seen list ≡ false) ↔ All (λ x. Dict.has x seen ≡ false) list
unfolding any_loop
any_loop_lem seen [] = ((λ _. tt), (λ _. refl))
any_loop_lem seen (x ∷ list) = ground (arith, any_loop_lem seen list)

-- HasListAnyElement is false exactly if no element of the list is among the given ones.
pub has_list_any_element_lem :
    (list elements : List String)
    → (has_list_any_element list elements ≡ false) ↔ All (λ x. contains x elements ≡ false) list
unfolding has_list_any_element Dict.has
has_list_any_element_lem list elements =
    subst
      (λ (p : String → Bool).
        (any_loop (element_map [] elements) list ≡ false) ↔ All (λ x. p x ≡ false) list)
      (fun_ext λ x. has-element_map x [] elements) (any_loop_lem (element_map [] elements) list)

All-keep-not :
    (p : String → Bool) (list : List String) → All (λ x. p x ≡ false) (keep (λ x. not (p x)) list)
All-keep-not p [] = tt
All-keep-not p (x ∷ list) = ground (arith, All-keep-not p list)

-- After RemoveElementsFromList none of the elements to remove is left.
pub has_list_any_element-remove_elements_from_list :
    (list elements : List String)
    → has_list_any_element (remove_elements_from_list list elements) elements ≡ false
has_list_any_element-remove_elements_from_list list elements =
    (has_list_any_element_lem (remove_elements_from_list list elements) elements).1 (
      rw (remove_elements_from_list_lem list elements)
        (All-keep-not (λ x. contains x elements) list))

-- The list after AddElementsToListIfNotExists is the old list, then the elements that it lacked.
pub add_elements_to_list_if_not_exists_lem :
    (list elements : List String)
    → add_elements_to_list_if_not_exists list elements
      ≡ list ++ keep (λ x. not (contains x list)) elements
unfolding add_elements_to_list_if_not_exists Dict.has
add_elements_to_list_if_not_exists_lem list elements =
    append_loop_lem (element_map [] list) (copy_loop [] list) elements
    ∙ ap₂ (λ (l : List String) (p : String → Bool). l ++ keep p elements) (copy_loop_lem [] list)
        (fun_ext λ x. ap not (has-element_map x [] list))

-- An element is in the result exactly if it was in the list or is added.
pub contains-add_elements_to_list_if_not_exists :
    (x : String) (list elements : List String)
    → contains x (add_elements_to_list_if_not_exists list elements)
      ≡ (contains x list || contains x elements)
contains-add_elements_to_list_if_not_exists x list elements =
    rw
      (
        add_elements_to_list_if_not_exists_lem list elements,
        contains-append,
        contains-keep x (λ y. not (contains y list)) elements,
      )
      (ground arith)

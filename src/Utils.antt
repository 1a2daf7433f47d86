-- ===== src/Utils.antt =====
-- internal/pkg/utils/lists.go: lists of strings as sets. The element maps of the source are
-- dictionaries here, filled by the same loops.
pub mod Laws
use oneinfra.Base.{String, Bool, true, false, List, [], ◌∷◌, ◌++◌, if◌then◌else◌}
use oneinfra.Dict
use oneinfra.Dict.{Dict}

-- for _, element := range elements { elementMap[element] = struct{}{} }
unfoldable pub element_map : Dict (Unit {0}) → List String → Dict (Unit {0})
element_map seen [] = seen
element_map seen (element ∷ elements) = element_map (Dict.insert element tt seen) elements

-- The first loop of AddElementsToListIfNotExists copies the list.
copy_loop : List String → List String → List String
copy_loop res [] = res
copy_loop res (element ∷ list) = copy_loop (res ++ element ∷ []) list

-- The loops that append an element if the test of the map says so.
append_loop : Dict (Unit {0}) → List String → List String → List String
append_loop seen res [] = res
append_loop seen res (element ∷ list) =
    append_loop seen (if Dict.has element seen then res else res ++ element ∷ []) list

any_loop : Dict (Unit {0}) → List String → Bool
any_loop seen [] = false
any_loop seen (element ∷ list) = if Dict.has element seen then true else any_loop seen list

unfoldable pub add_elements_to_list_if_not_exists : List String → List String → List String
unfolding element_map copy_loop append_loop
add_elements_to_list_if_not_exists list elements =
    append_loop (element_map [] list) (copy_loop [] list) elements

unfoldable pub has_list_any_element : List String → List String → Bool
unfolding element_map any_loop
has_list_any_element list elements = any_loop (element_map [] elements) list

unfoldable pub remove_elements_from_list : List String → List String → List String
unfolding element_map append_loop
remove_elements_from_list list elements = append_loop (element_map [] elements) [] list

-- ===== src/Containers/Examples.antt =====
-- A map of two keys, a set of two keys, and an array of three values.
use sol.Base.{ℕ, ◌==◌, ◌≡◌, refl, false, not, if◌then◌else◌, none, some, List, [], ◌∷◌}
use sol.Containers.Maps.{get_associative_find, insert_lookup}
use sol.Containers.Refinement.{Change, changes, table_changes, get-changes}
use sol.Containers.Sets.{SetChange, get_key, change_sets, keys_changes, get_key-changes}
use sol.Containers.Arrays.{
  array_get, array_set, array_find, array_empty, fixed_size, array-sequence,
}
use sol.Containers.Small.{list_map, list_map-IsMap, list_set, list_set-IsStdSet, ==_comm}
use sol.Sequences.Access.{pos, get_random, is_empty}
use sol.Sequences.Change.{set_random}
use sol.Sequences.Search

abbrev ages : List (ℕ × ℕ)
ages = (1, 30) ∷ (2, 40) ∷ []

abbrev some_changes : List (Change ℕ)
some_changes = Change.set 1 (some 31) ∷ Change.add 2 41 ∷ Change.insert 5 7 ∷ Change.set 2 none ∷ []

get-changes_example :
    get_associative_find (list_map ℕ) (changes (list_map ℕ) (λ v. v) ages some_changes) 7
    ≡ table_changes (λ v. v) (get_associative_find (list_map ℕ) ages) some_changes 7
get-changes_example = get-changes (list_map ℕ) (λ v. v) (list_map-IsMap ℕ) ages some_changes 7

-- The value 7 is added at the key 7.
inserted : insert_lookup (list_map ℕ) (λ v. v) ages 5 7 ≡ (1, 30) ∷ (2, 40) ∷ (7, 7) ∷ []
unfolding insert_lookup
inserted = refl

abbrev set_changes : List SetChange
set_changes =
    SetChange.set 3 false ∷ SetChange.set 8 false ∷ SetChange.insert 1 9 ∷ SetChange.erase 3 ∷ []

get_key-changes_example :
    (get_key list_set (change_sets list_set (3 ∷ 4 ∷ []) set_changes).0 9
      ≡ (if (keys_changes (list_set.has (3 ∷ 4 ∷ [])) set_changes).0 9 then some 9 else none))
    × ((change_sets list_set (3 ∷ 4 ∷ []) set_changes).1
        ≡ (keys_changes (list_set.has (3 ∷ 4 ∷ [])) set_changes).1)
get_key-changes_example = get_key-changes list_set list_set-IsStdSet (3 ∷ 4 ∷ []) set_changes 9

abbrev three : List ℕ
three = 5 ∷ 6 ∷ 7 ∷ []

array-sequence_example :
    (array_get three (pos 4) ≡ get_random three (pos 4))
    × (array_set three (pos 4) 6 ≡ fixed_size 3 (set_random three (pos 4) 6))
    × (array_find ◌==◌ three 6 ≡ Search.find ◌==◌ three 6)
    × (array_empty three ≡ not (is_empty three))
array-sequence_example = array-sequence ◌==◌ three (pos 4) 6 (λ x. ==_comm x 6)

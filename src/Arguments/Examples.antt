-- ===== src/Arguments/Examples.antt =====
-- Calls with a few arguments on the stack.
use sol.Base.{
  ◌+◌, ◌-◌, ◌≡◌, ◌⊎◌, refl, true, false, arith, List, [], ◌∷◌, map, length, some, get_elem?,
}
use sol.Arguments.Types.{
  LuaType, is_type, value_at, free_arity, runtime_variadics, Value, fresh, use_slots, Leaf,
  ArgTypes, boolean, integral, text, leaf, transparent, lua_type, optional, variant, no_types, also,
  number, string, table, object, reference,
}
use sol.Arguments.Checking.{check_types, accepts}
use sol.Arguments.Getting.{
  Gots, no_gots, with_got, value, type_at, error, called, call_arguments, call_from_top, get_types,
}
use sol.Arguments.Safety.{AllSafe}
use sol.Arguments.Calling.{call_arguments-AllSafe}
use sol.Arguments.Positions.{all_positions, from}
use sol.Arguments.Chosen.{candidate, has_passed, overload_match-reads}
use sol.Arguments.Shifts.{leaves, optional_reference-shifts}
use sol.Overloads.Match.{
  matched, overload_match, overload_match_all, overload_match_arity_single, find_in_pack,
  overload_match_arity,
}

abbrev nil : Value
nil = record {
  kind = LuaType.lua_nil;
  integer = false;
  numeral = false;
  whole = false;
  has_call = false;
  tag = 1;
}

abbrev five : Value
five = record {
  kind = number;
  integer = true;
  numeral = true;
  whole = true;
  has_call = false;
  tag = 5;
}

abbrev word : Value
word = record {
  kind = string;
  integer = false;
  numeral = false;
  whole = false;
  has_call = false;
  tag = 7;
}

abbrev a_table : Value
a_table = record {
  kind = table;
  integer = false;
  numeral = false;
  whole = false;
  has_call = false;
  tag = 9;
}

abbrev int_state_optional : ArgTypes
int_state_optional = also (leaf integral) (also transparent (also (optional (leaf text)) no_types))

call_arguments-AllSafe_example :
    let s = five ∷ word ∷ [] in
    (call_arguments true s int_state_optional 1 ≡ error)
    ⊎ ((gs : Gots) × (call_arguments true s int_state_optional 1 ≡ called gs) × AllSafe gs)
call_arguments-AllSafe_example =
    call_arguments-AllSafe int_state_optional (five ∷ word ∷ []) 1 refl refl

abbrev one_int : ArgTypes
one_int = also (leaf integral) no_types

abbrev int_variant : ArgTypes
int_variant =
    also (leaf integral)
      (also (variant (also (leaf boolean) (also (leaf text) no_types))) (also transparent no_types))

two_chosen :
    overload_match (map (candidate (nil ∷ five ∷ word ∷ []) 2) (one_int ∷ int_variant ∷ [])) 3 2
    ≡ matched 1
unfolding overload_match candidate check_types accepts value_at free_arity runtime_variadics
    has_passed overload_match_all overload_match_arity_single find_in_pack overload_match_arity
    use_slots
two_chosen = refl

overload_match-reads_example :
    let s = nil ∷ five ∷ word ∷ [] in
    (ts : ArgTypes) × (get_elem? (one_int ∷ int_variant ∷ []) 1 ≡ some ts)
    × AllSafe (get_types s ts 2 fresh).0
    × (all_positions (get_types s ts 2 fresh).0 ≡ from 2 (length s + 1 - 2))
unfolding runtime_variadics is_type
overload_match-reads_example =
    overload_match-reads one_int int_variant [] (nil ∷ five ∷ word ∷ []) 2 1 (refl, (refl, tt))
      (refl, (refl, (refl, tt))) (omega arith) (omega arith) two_chosen

abbrev ints : List Leaf
ints = integral ∷ integral ∷ []

optional_reference-shifts_example :
    let s = nil ∷ five ∷ [] in
    let all = also (optional (leaf (reference object))) (leaves (integral ∷ []) no_types) in
    (check_types s all true 1 fresh
      ≡ check_types s (leaves (integral ∷ []) no_types) true 1 (use_slots 1 fresh))
    × (all_positions (get_types s all 1 fresh).0 ≡ 1 ∷ from 1 1)
unfolding is_type value_at
optional_reference-shifts_example =
    optional_reference-shifts object (integral ∷ []) (nil ∷ five ∷ []) 1 true refl

-- A parameter of type `type`: the check of the next tests the value whose type it is, and the next is
-- read from the slot behind.
type_and_int :
    let s = five ∷ word ∷ [] in
    call_arguments true s (also lua_type (also (leaf integral) no_types)) 1
    ≡ called (with_got (type_at 1) (with_got (value integral 2 word) no_gots))
unfolding call_arguments value_at is_type
type_and_int = refl

-- The last of two arguments from the top is read one slot too low.
from_top :
    call_from_top false (nil ∷ five ∷ word ∷ []) (also (leaf integral) no_types)
    ≡ called (with_got (value integral 2 five) no_gots)
unfolding call_from_top value_at
from_top = refl

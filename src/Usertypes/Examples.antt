-- ===== src/Usertypes/Examples.antt =====
-- A base class with a function, and a class that derives from it and adds one of its own.
use sol.Base.{ℕ, zero, suc, ◌≡◌, refl, ap, true, false, ◌==◌, if◌then◌else◌, Option, none, some}
use sol.Usertypes.Storage.{
  Key, string, Submetatable, value, function, Binding, Bases, no_bases, base, for_each_table,
  Storage, binding_at,
}
use sol.Usertypes.Setting.{
  add_entry, string_for_each, string_for_each_of, set_string, register_usertype,
}
use sol.Usertypes.Indexing.{
  string_call, push_field, found_call, Usertypes, from_object, self_index_call,
}
use sol.Usertypes.History.{Reached, registered, changed, sets}
use sol.Usertypes.Reading.{member_response, answered, found_call-set_string}
use sol.Usertypes.Walking.{
  first_answer, depth_first, class_answer, failed_answer, or_failure, self_index_call-first,
}
use sol.Usertypes.Liveness.{is_safe, are_safe}
use sol.Usertypes.Safety.{is_undefined, self_index_call-safe}
use sol.Usertypes.Fast.{without_flag, read, self_index_call-fast}

abbrev intrinsic : Submetatable → Key → Option ℕ
intrinsic smt k = some 7

abbrev first : Storage
first = register_usertype no_bases intrinsic

abbrev method : Binding
method = record { address = 100; kind = function; content = 1 }

abbrev another : Binding
another = record { address = 200; kind = function; content = 2 }

abbrev base_class : Storage
base_class = set_string 30 method first

abbrev derived_class : Storage
derived_class = set_string 31 another first

free : (d : ℕ) → binding_at d first.storage ≡ none
unfolding binding_at register_usertype
free d = refl

first-Reached : Reached first
first-Reached = registered no_bases intrinsic

base-Reached : Reached base_class
base-Reached = changed first-Reached (sets 30 method (free 100))

derived-Reached : Reached derived_class
derived-Reached = changed first-Reached (sets 31 another (free 200))

abbrev usertypes : Usertypes
usertypes zero = none
usertypes (suc zero) = some base_class
usertypes (suc (suc zero)) = some derived_class
usertypes (suc (suc (suc n))) = none

same_Reached : (s u : Storage) → Reached s → some s ≡ some u → Reached u
same_Reached s u r e =
    let same : s ≡ u = ap (λ (o : Option Storage). elim o [ none ↦ s | some x ↦ x ]) e in
    rw⁻¹ same r

usertypes-Reached : (n : ℕ) (s : Storage) → usertypes n ≡ some s → Reached s
usertypes-Reached zero s e = cc
usertypes-Reached (suc zero) s e = same_Reached base_class s base-Reached e
usertypes-Reached (suc (suc zero)) s e = same_Reached derived_class s derived-Reached e
usertypes-Reached (suc (suc (suc n))) s e = cc

unpoisoned : derived_class.tables.is_using_index ≡ false
unfolding set_string for_each_table string_for_each string_for_each_of register_usertype
unpoisoned = refl

abbrev bases : Bases
bases = base 1 no_bases no_bases

found_call-set_string_example :
    let c = read value 31 0 500 in
    answered (found_call false (string 31) c (set_string 31 another first)) ≡ (
      if 31 == 31
      then some (member_response false 31 another)
      else answered (found_call false (string 31) c first))
found_call-set_string_example =
    found_call-set_string first 31 31 another false (read value 31 0 500) first-Reached (free 200)

self_index_call-first_example :
    let c = read value 30 0 500 in
    self_index_call false from_object 2 bases c usertypes derived_class
    ≡ or_failure
        (class_answer false 2 bases c usertypes derived_class)
        (failed_answer false from_object 2 c usertypes derived_class)
self_index_call-first_example =
    self_index_call-first false from_object 2 bases (read value 30 0 500) usertypes derived_class

self_index_call-safe_example :
    let c = read value 30 0 500 in
    (is_undefined (self_index_call false from_object 2 bases c usertypes derived_class).1 ≡ false)
    × (are_safe derived_class.storage (answered (found_call false (string 31) c derived_class))
        ≡ true)
    × (is_safe derived_class.storage (push_field (derived_class.tables.at value (string 31)))
        ≡ true)
self_index_call-safe_example =
    self_index_call-safe usertypes derived_class false from_object 2 bases (read value 30 0 500)
      value (string 31) derived-Reached usertypes-Reached

none_inherited :
    first_answer false (read value 31 0 500) usertypes (depth_first usertypes bases) ≡ none
unfolding found_call string_call set_string for_each_table string_for_each string_for_each_of
    register_usertype add_entry
none_inherited = refl

self_index_call-fast_example :
    without_flag (push_field (derived_class.tables.at value (string 31)))
    ≡ without_flag
        (self_index_call false from_object 2 bases (read value 31 0 500) usertypes derived_class).1
self_index_call-fast_example =
    self_index_call-fast derived_class value 31 0 500 2 bases usertypes derived-Reached unpoisoned
      refl refl (λ e. none_inherited)

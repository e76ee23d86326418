-- ===== src/Inheritance/Examples.antt =====
-- A class with two bases, the second at an offset.
use sol.Base.{
  ℕ, ◌+◌, ◌≡◌, refl, arith, true, false, not, ◌==◌, ◌||◌, if◌then◌else◌, [], ◌∷◌, none, some,
}
use sol.Inheritance.Casts.{
  Base, Class, type_check_bases, type_check, type_cast, UniqueTraits, type_unique_cast,
}
use sol.Inheritance.Objects.{
  Metatable, Userdata, Wanted, check_metatable, run_class_check, check_with, check,
  get_no_lua_nil_from,
}
use sol.Inheritance.Agreement.{base_named, part, or_null, KeepsNull, casts-agree}
use sol.Inheritance.Getting.{IsMetatableOf, get-part}

abbrev first_base : Base
first_base = record { qualified_name = 11; to_base = λ p. p }

abbrev second_base : Base
second_base = record { qualified_name = 12; to_base = λ p. p + 8 }

abbrev derived : Class
derived = record { qualified_name = 10; bases = first_base ∷ second_base ∷ [] }

abbrev unique : UniqueTraits
unique = record { is_base_rebindable = true; is_rebind_void = false; rebind_name = 5 }

first_keeps : KeepsNull first_base
first_keeps p e = e

second_keeps : KeepsNull second_base
second_keeps p e = ground arith

casts-agree_example :
    let cast = type_unique_cast unique derived 500 12 5 in
    (type_check derived 12 ≡ not (type_cast derived 100 12 == 0))
    × (type_cast derived 100 12 ≡ or_null (part derived 100 12))
    × (type_check derived 12 ≡ not (cast.result == 0))
    × (cast.stored ≡ (if 12 == 10 || 500 == 0 then none else base_named derived.bases 12))
casts-agree_example =
    casts-agree derived 100 12 500 unique ((first_keeps, (second_keeps, _))) refl refl refl

abbrev metatable : Metatable
metatable = record { identity = 7; class_check = some derived; class_cast = some derived }

abbrev object : Userdata
object = record { object = 100; metatable = some metatable }

abbrev wanted : Wanted
wanted = record {
  qualified_name = 12;
  value_metatable = some 3;
  pointer_metatable = none;
  unique_metatable = none;
  container_metatable = none;
  has_derived = true;
}

metatable-IsMetatableOf : IsMetatableOf wanted metatable derived
unfolding check_metatable
metatable-IsMetatableOf = record { checks = refl; casts = refl; registered = λ e. cc }

object_accepted : check wanted object ≡ true
unfolding check check_with check_metatable run_class_check type_check type_check_bases
object_accepted = refl

get-part_example :
    (p : ℕ) × (part derived 100 12 ≡ some p) × (get_no_lua_nil_from wanted object ≡ p)
get-part_example =
    get-part wanted object metatable derived refl metatable-IsMetatableOf object_accepted

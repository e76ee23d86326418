-- ===== src/Inheritance/Objects.antt =====
-- Objects of usertypes on the stack: whether one is taken as a type, and the pointer that is got.
use sol.Base.{ℕ, Bool, true, false, ◌==◌, if◌then◌else◌, Option, none, some}
use sol.Inheritance.Casts.{Class, type_check, type_cast}

-- A metatable that sol has made for a class: which one it is, and the class whose `type_check` and
-- `type_cast` functions it holds, if it holds them.
pub record Metatable : Type 0 where
  pub identity : ℕ
  pub class_check : Option Class
  pub class_cast : Option Class

-- A userdata: the pointer in front of its object, and its metatable.
pub record Userdata : Type 0 where
  pub object : ℕ
  pub metatable : Option Metatable

-- The type that is asked for: its name, the metatables that are registered for it as a value, a pointer,
-- a unique usertype and a container, and `derive<T>::value || weak_derive<T>::value`.
pub record Wanted : Type 0 where
  pub qualified_name : ℕ
  pub value_metatable : Option ℕ
  pub pointer_metatable : Option ℕ
  pub unique_metatable : Option ℕ
  pub container_metatable : Option ℕ
  pub has_derived : Bool

unfoldable pub check_metatable : Option ℕ → Metatable → Bool
check_metatable none m = false
check_metatable (some expected) m = expected == m.identity

unfoldable pub run_class_check : Option Class → ℕ → Bool
run_class_check none ti = false
run_class_check (some c) ti = type_check c ti

-- The checker behind its test for a userdata.
unfoldable pub check_with : Wanted → Option Metatable → Bool
check_with w none = true
check_with w (some m) =
    if check_metatable w.value_metatable m
    then true
    else if check_metatable w.pointer_metatable m
    then true
    else if check_metatable w.unique_metatable m
    then true
    else if check_metatable w.container_metatable m
    then true
    else if w.has_derived
    then run_class_check m.class_check w.qualified_name
    else false

unfoldable pub check : Wanted → Userdata → Bool
check w u = check_with w u.metatable

unfoldable pub run_class_cast : Option Class → ℕ → ℕ → ℕ
run_class_cast none object ti = object
run_class_cast (some c) object ti = type_cast c object ti

unfoldable pub cast_with : Wanted → Option Metatable → ℕ → ℕ
cast_with w none object = object
cast_with w (some m) object = run_class_cast m.class_cast object w.qualified_name

-- `get_no_lua_nil_from`
unfoldable pub get_no_lua_nil_from : Wanted → Userdata → ℕ
get_no_lua_nil_from w u = if w.has_derived then cast_with w u.metatable u.object else u.object

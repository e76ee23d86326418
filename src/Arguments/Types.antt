-- ===== src/Arguments/Types.antt =====
-- The values on the stack, and the types of C++ parameters. Lua 5.3 or later, with SOL_SAFE_NUMERICS
-- and without SOL_STRINGS_ARE_NUMBERS, as the safe configuration has it.
use sol.Base.{ℕ, zero, suc, ◌+◌, ◌-◌, Bool, true, false, ◌==◌, List, [], ◌∷◌}

-- `enum class type`, without `poly`
pub data LuaType : Type 0 where
  none lua_nil boolean lightuserdata number string table function userdata thread : LuaType

-- A value, as far as the checks see it: its type, whether a number is an integer (`lua_isinteger`),
-- whether `lua_tonumberx` makes a number of a string, whether the number is a whole one, and whether
-- its metatable has `__call`. The tag tells values apart.
pub record Value : Type 0 where
  pub kind : LuaType
  pub integer : Bool
  pub numeral : Bool
  pub whole : Bool
  pub has_call : Bool
  pub tag : ℕ

-- What there is above the top of the stack.
abbrev pub no_value : Value
no_value = record {
  kind = none;
  integer = false;
  numeral = false;
  whole = false;
  has_call = false;
  tag = 0;
}

-- The value at an index, from 1 on. There is none at index 0 and above the top.
unfoldable pub value_at : List Value → ℕ → Value
value_at [] i = no_value
value_at (v ∷ s) zero = no_value
value_at (v ∷ s) (suc zero) = v
value_at (v ∷ s) (suc (suc i)) = value_at s (suc i)

-- The constants of lua.h, from LUA_TNONE on.
unfoldable pub lua_t : LuaType → ℕ
lua_t none = 0
lua_t lua_nil = 1
lua_t boolean = 2
lua_t lightuserdata = 3
lua_t number = 4
lua_t string = 5
lua_t table = 6
lua_t function = 7
lua_t userdata = 8
lua_t thread = 9

-- `type_of(L, index) == expected`
unfoldable pub is_type : LuaType → Value → Bool
unfolding lua_t
is_type expected v = lua_t v.kind == lua_t expected

-- `record`
pub record Tracking : Type 0 where
  pub last : ℕ
  pub used : ℕ

abbrev pub fresh : Tracking
fresh = record { last = 0; used = 0 }

unfoldable pub use_slots : ℕ → Tracking → Tracking
use_slots n t = record { last = n; used = t.used + n }

-- The types that are references to Lua values: objects, tables, functions, userdata and threads.
pub data ReferenceType : Type 0 where
  object table function userdata thread : ReferenceType

-- The types that are read from one value.
pub data Leaf : Type 0 where
  boolean integral floating text lightuserdata std_function lua_nil : Leaf
  reference : ReferenceType → Leaf

-- The types of parameters. `transparent` stands for `this_state`, `this_main_state` and
-- `this_environment`, and `lua_type` for `type`.
mutual
  pub data ArgType : Type 0 where
    leaf : Leaf → ArgType
    transparent variadic lua_type : ArgType
    optional : ArgType → ArgType
    tuple : ArgTypes → ArgType
    pair : ArgType → ArgType → ArgType
    variant : ArgTypes → ArgType

  pub data ArgTypes : Type 0 where
    no_types : ArgTypes
    also : ArgType → ArgTypes → ArgTypes

-- `lua_size`
unfoldable mutual
  pub lua_size : ArgType → ℕ
  lua_size (tuple ts) = lua_sizes ts
  lua_size (pair a b) = lua_size a + lua_size b
  lua_size (leaf l) = 1
  lua_size transparent = 1
  lua_size variadic = 1
  lua_size lua_type = 1
  lua_size (optional a) = 1
  lua_size (variant ts) = 1

  pub lua_sizes : ArgTypes → ℕ
  lua_sizes no_types = 0
  lua_sizes (also a ts) = lua_size a + lua_sizes ts

-- `is_transparent_argument`
unfoldable pub is_transparent_argument : ArgType → Bool
is_transparent_argument transparent = true
is_transparent_argument variadic = true
is_transparent_argument _ = false

unfoldable pub count_transparent : ArgTypes → ℕ
unfolding is_transparent_argument
count_transparent no_types = 0
count_transparent (also transparent ts) = count_transparent ts + 1
count_transparent (also variadic ts) = count_transparent ts + 1
count_transparent (also _ ts) = count_transparent ts

-- `lua_bind_traits::free_arity`, of a function that is not a member.
unfoldable pub free_arity : ArgTypes → ℕ
unfolding lua_sizes count_transparent
free_arity ts = lua_sizes ts - count_transparent ts

-- `lua_bind_traits::runtime_variadics_t`
unfoldable pub runtime_variadics : ArgTypes → Bool
runtime_variadics no_types = false
runtime_variadics (also variadic ts) = true
runtime_variadics (also _ ts) = runtime_variadics ts

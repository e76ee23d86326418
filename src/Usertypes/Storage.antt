-- ===== src/Usertypes/Storage.antt =====
-- `usertype_storage_base`, its tables and its bindings. Strings are numbered, since they are only
-- compared; a map is a function of its keys, and so are the contents of a Lua table.
use sol.Base.{ℕ, Bool, true, false, ◌==◌, if◌then◌else◌, List, [], ◌∷◌, Option, none, some}

-- The strings that the code names: of `meta_function_names()`, and of the casts of a class.
abbrev pub call_function : ℕ
call_function = 0

abbrev pub index : ℕ
index = 1

abbrev pub new_index : ℕ
new_index = 2

abbrev pub garbage_collect : ℕ
garbage_collect = 3

abbrev pub static_index : ℕ
static_index = 4

abbrev pub static_new_index : ℕ
static_new_index = 5

abbrev pub base_class_check : ℕ
base_class_check = 6

abbrev pub base_class_cast : ℕ
base_class_cast = 7

-- A key as Lua code passes it: a string, or another value that is not nil.
pub data Key : Type 0 where
  string other : ℕ → Key

abbrev pub same_key : Key → Key → Bool
same_key (string k) (string l) = k == l
same_key (string k) (other l) = false
same_key (other k) (string l) = false
same_key (other k) (other l) = k == l

pub data Submetatable : Type 0 where
  value reference unique const_reference const_value named : Submetatable

abbrev pub number : Submetatable → ℕ
number value = 0
number reference = 1
number unique = 2
number const_reference = 3
number const_value = 4
number named = 5

-- What `set` tells apart: `is_lua_c_function_v`, `is_lua_reference_or_proxy_v`, other types with
-- `is_variable_binding`, and the rest.
pub data Kind : Type 0 where
  c_function lua_reference variable function : Kind

abbrev pub is_variable : Kind → Bool
is_variable c_function = false
is_variable lua_reference = true
is_variable variable = true
is_variable function = false

-- A `binding<K, Fq, T>`: what `data()` returns, its kind, and what is stored there.
pub record Binding : Type 0 where
  pub address : ℕ
  pub kind : Kind
  pub content : ℕ

-- The functions of `index_call_storage`: `call_with_` and `index_call_with_` of a kind of binding, each
-- with its argument `is_index`, and the functions a usertype starts with.
pub data IndexHandler : Type 0 where
  call_with index_call_with : Bool → Kind → IndexHandler
  index_target_fail new_index_target_fail new_index_target_set : IndexHandler

pub record IndexCallStorage : Type 0 where
  pub index_handler : IndexHandler
  pub new_index_handler : IndexHandler
  pub binding_data : ℕ

-- `new_index_call_storage`. The pointer to the storage itself that `new_index_target_set` gets is 0.
pub record NewIndexCallStorage : Type 0 where
  pub index_handler : IndexHandler
  pub new_index_handler : IndexHandler
  pub binding_data : ℕ
  pub new_binding_data : ℕ

-- A list of base classes: the number of the first, its own bases, and the others.
pub data Bases : Type 0 where
  no_bases : Bases
  base : ℕ → Bases → Bases → Bases

-- What a table holds: a C function, a Lua value, `call<is_index, ...>` over a binding, the table itself,
-- or `index_call` and `meta_index_call` with their argument `is_new_index` and the bases they walk.
pub data LuaValue : Type 0 where
  raw_function lua_value : ℕ → LuaValue
  closure : Bool → Kind → ℕ → LuaValue
  own_table : LuaValue
  index_call meta_index_call : Bool → Bases → LuaValue

abbrev pub Table : Type 0
Table = Key → Option LuaValue

abbrev pub set_field : Key → LuaValue → Table → Table
set_field k v t l = if same_key l k then some v else t l

-- What `for_each_table` changes: the tables, `named_metatable`, whose metatable is the table `named`,
-- whether the table `named` has become its own metatable, and the flags.
pub record Tables : Type 0 where
  pub at : Submetatable → Table
  pub named_metatable : Table
  pub is_named_own_metatable : Bool
  pub is_using_index : Bool
  pub is_using_new_index : Bool

abbrev pub with_table : Submetatable → Table → Tables → Tables
with_table smt t ts = record ts { at = λ m. if number m == number smt then t else ts.at m }

unfoldable pub for_each_table : (Submetatable → Tables → Tables) → Tables → Tables
for_each_table fx ts =
    fx named (fx const_value (fx const_reference (fx unique (fx reference (fx value ts)))))

-- `own_bases` is `base<T>::type`, known from the class alone.
pub record Storage : Type 0 where
  pub own_bases : Bases
  pub storage : List Binding
  pub string_keys : ℕ → Option IndexCallStorage
  pub auxiliary_keys : ℕ → Option ℕ
  pub tables : Tables
  pub base_index : NewIndexCallStorage
  pub static_base_index : NewIndexCallStorage

-- The binding at an address.
unfoldable pub binding_at : ℕ → List Binding → Option Binding
binding_at d [] = none
binding_at d (b ∷ bs) = if d == b.address then some b else binding_at d bs

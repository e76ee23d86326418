-- ===== src/Usertypes/Setting.antt =====
-- `usertype_storage_base::set`, and the functions it passes to `for_each_table`.
use sol.Base.{
  ℕ, Bool, true, false, not, ◌==◌, ◌&&◌, ◌||◌, if◌then◌else◌, List, [], ◌∷◌, ◌++◌, Option, none,
  some,
}
use sol.Usertypes.Storage.{
  call_function, index, new_index, garbage_collect, static_index, static_new_index,
  base_class_check, base_class_cast, Key, string, other, same_key, Submetatable, value, reference,
  unique, const_reference, const_value, named, Kind, c_function, lua_reference, variable, function,
  is_variable, Binding, call_with, index_call_with, index_target_fail, new_index_target_fail,
  new_index_target_set, IndexCallStorage, NewIndexCallStorage, Bases, no_bases, base, LuaValue,
  raw_function, lua_value, closure, own_table, index_call, meta_index_call, Table, set_field,
  Tables, with_table, for_each_table, Storage,
}

abbrev pub is_named : Submetatable → Bool
is_named named = true
is_named _ = false

-- `bases` are those that `index` and the other functions walk.
unfoldable pub change_indexing : Bases → Submetatable → Tables → Tables
change_indexing bases smt ts =
    let used = record ts { is_using_index = true; is_using_new_index = true } in
    if is_named smt
    then record used {
      is_named_own_metatable = true;
      named_metatable =
          set_field (string new_index) (meta_index_call true bases)
            (set_field (string index) (meta_index_call false bases) used.named_metatable);
    }
    else with_table smt
        (set_field (string new_index) (index_call true bases)
          (set_field (string index) (index_call false bases) (used.at smt)))
        used

-- `string_for_each_metatable_func`: its flags, and what is stored under its key.
pub record StringForEach : Type 0 where
  pub is_destruction : Bool
  pub is_index : Bool
  pub is_new_index : Bool
  pub is_static_index : Bool
  pub is_static_new_index : Bool
  pub poison_indexing : Bool
  pub key : ℕ
  pub stored : LuaValue
  pub bases : Bases

abbrev pub has_own_destruction : Submetatable → Bool
has_own_destruction value = false
has_own_destruction reference = true
has_own_destruction unique = true
has_own_destruction const_reference = true
has_own_destruction const_value = false
has_own_destruction named = true

unfoldable pub string_for_each : StringForEach → Submetatable → Tables → Tables
string_for_each fx smt ts =
    let poisoned = if fx.poison_indexing then change_indexing fx.bases smt ts else ts in
    if is_named smt
    then ts
    else if fx.is_destruction && has_own_destruction smt
    then poisoned
    else if fx.is_index || (fx.is_new_index || (fx.is_static_index || fx.is_static_new_index))
    then poisoned
    else with_table smt (set_field (string fx.key) fx.stored (poisoned.at smt)) poisoned

-- `lua_reference_func`
unfoldable pub lua_reference_for_each : ℕ → ℕ → Submetatable → Tables → Tables
lua_reference_for_each key v smt ts =
    if is_named smt then ts else with_table smt (set_field (other key) (lua_value v) (ts.at smt)) ts

-- The binding takes the place of the one at `binding_data`, or comes last.
unfoldable pub replace_binding : ℕ → Binding → List Binding → List Binding
replace_binding d p_binding [] = p_binding ∷ []
replace_binding d p_binding (b ∷ bs) =
    if d == b.address then p_binding ∷ bs else b ∷ replace_binding d p_binding bs

unfoldable pub place_binding : Option IndexCallStorage → Binding → List Binding → List Binding
place_binding none p_binding bs = bs ++ (p_binding ∷ [])
place_binding (some found) p_binding bs = replace_binding found.binding_data p_binding bs

unfoldable pub add_entry :
    ℕ → IndexCallStorage → (ℕ → Option IndexCallStorage) → ℕ → Option IndexCallStorage
add_entry sv ics string_keys k = if k == sv then some ics else string_keys k

-- What the tables get for a binding.
abbrev pub stored_for : Kind → ℕ → ℕ → LuaValue
stored_for c_function content address = raw_function content
stored_for lua_reference content address = lua_value content
stored_for variable content address = closure false variable address
stored_for function content address = closure false function address

unfoldable pub stored_value : Binding → LuaValue
stored_value b = stored_for b.kind b.content b.address

unfoldable pub set_base : Bool → Bool → IndexCallStorage → NewIndexCallStorage → NewIndexCallStorage
set_base is_index is_new_index ics target =
    let indexed =
      if is_index
      then record target { index_handler = ics.index_handler; binding_data = ics.binding_data }
      else target in
    if is_new_index
    then record indexed {
      new_index_handler = ics.new_index_handler;
      new_binding_data = ics.binding_data;
    }
    else indexed

-- What `set` makes of the name `s` and the new binding: `ics`, and `for_each_fx`.
unfoldable pub call_storage : ℕ → Binding → IndexCallStorage
call_storage s b = record {
  index_handler =
      if s == index || s == static_index
      then call_with true b.kind
      else index_call_with true b.kind;
  new_index_handler =
      if s == new_index || s == static_new_index
      then call_with false b.kind
      else index_call_with false b.kind;
  binding_data = b.address;
}

unfoldable pub string_for_each_of : ℕ → Binding → Storage → StringForEach
string_for_each_of s b self = record {
  is_destruction = s == garbage_collect;
  is_index = s == index;
  is_new_index = s == new_index;
  is_static_index = s == static_index;
  is_static_new_index = s == static_new_index;
  poison_indexing =
      (not self.tables.is_using_index || not self.tables.is_using_new_index)
      && (is_variable b.kind || (s == index || s == new_index));
  key = s;
  stored = stored_value b;
  bases = self.own_bases;
}

-- `set` with a string as its key. `b` is the new binding.
unfoldable pub set_string : ℕ → Binding → Storage → Storage
set_string s b self =
    let ics = call_storage s b in
    record self {
      storage = place_binding (self.string_keys s) b self.storage;
      string_keys = add_entry s ics self.string_keys;
      tables = for_each_table (string_for_each (string_for_each_of s b self)) self.tables;
      base_index = set_base (s == index) (s == new_index) ics self.base_index;
      static_base_index =
          set_base (s == static_index) (s == static_new_index) ics self.static_base_index;
    }

-- `set` with `call_construction` as its key.
unfoldable pub set_call_construction : Binding → Storage → Storage
set_call_construction b self = record self {
  storage = self.storage ++ (b ∷ []);
  tables =
      with_table named
        (set_field (string call_function) (closure false b.kind b.address) (self.tables.at named))
        self.tables;
}

-- `set` with a Lua value as its key and its value. A string becomes a binding of a reference at the
-- address `p`.
unfoldable pub set_reference : Key → ℕ → ℕ → Storage → Storage
set_reference (string s) v p self =
    set_string s (record { address = p; kind = lua_reference; content = v }) self
set_reference (other k) v p self = record self {
  tables = for_each_table (lua_reference_for_each k v) self.tables;
  auxiliary_keys = λ l. if l == k then some v else self.auxiliary_keys l;
}

-- `set` as `new_index_target_set` calls it: for the class `void`, which has no bases.
unfoldable pub set_untyped : Key → ℕ → ℕ → Storage → Storage
set_untyped k v p self = record (set_reference k v p (record self { own_bases = no_bases })) {
  own_bases = self.own_bases;
}

-- `update_bases_func`, with the functions for the casts of the class.
unfoldable pub update_bases_for_each : Bases → ℕ → ℕ → Submetatable → Tables → Tables
update_bases_for_each bases check cast smt ts =
    let checked = set_field (string base_class_check) (raw_function check) (ts.at smt) in
    let casted = set_field (string base_class_cast) (raw_function cast) checked in
    change_indexing bases smt (with_table smt casted ts)

unfoldable pub update_bases : Bases → ℕ → ℕ → Storage → Storage
update_bases no_bases check cast self = self
update_bases (base c its rest) check cast self = record self {
  tables = for_each_table (update_bases_for_each (base c its rest) check cast) self.tables;
}

unfoldable pub intrinsic_at : Option ℕ → Option LuaValue
intrinsic_at none = none
intrinsic_at (some f) = some (raw_function f)

unfoldable pub registered_at : Bases → (Key → Option ℕ) → Submetatable → Table
registered_at bases intrinsic smt k =
    if same_key k (string index)
    then some (if is_named smt then meta_index_call false bases else own_table)
    else if same_key k (string new_index)
    then some (if is_named smt then meta_index_call true bases else index_call true bases)
    else intrinsic_at (intrinsic k)

-- What `register_usertype` leaves. `intrinsic` is what it stores in the tables besides: destructors, casts,
-- the operators a class has, and tables of its own.
unfoldable pub register_usertype : Bases → (Submetatable → Key → Option ℕ) → Storage
register_usertype bases intrinsic = record {
  own_bases = bases;
  storage = [];
  string_keys = λ k. none;
  auxiliary_keys = λ k. none;
  tables = record {
    at = λ smt. registered_at bases (intrinsic smt) smt;
    named_metatable = λ k. none;
    is_named_own_metatable = false;
    is_using_index = false;
    is_using_new_index = true;
  };
  base_index = record {
    index_handler = index_target_fail;
    new_index_handler = new_index_target_fail;
    binding_data = 0;
    new_binding_data = 0;
  };
  static_base_index = record {
    index_handler = index_target_fail;
    new_index_handler = new_index_target_set;
    binding_data = 0;
    new_binding_data = 0;
  };
}

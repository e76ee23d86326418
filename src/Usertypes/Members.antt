-- ===== src/Usertypes/Members.antt =====
-- The abstract view of a usertype: the binding of each name. `IsMembers` says that a storage has it.
use sol.Base.{ℕ, ◌≡◌, Bool, true, false, not, ◌==◌, ◌&&◌, ◌||◌, if◌then◌else◌, Option, none, some}
use sol.Usertypes.Storage.{
  index, new_index, garbage_collect, static_index, static_new_index, Key, string, Submetatable,
  named, Kind, is_variable, Binding, index_target_fail, new_index_target_fail, new_index_target_set,
  IndexCallStorage, NewIndexCallStorage, closure, Table, Tables, Storage, binding_at,
}
use sol.Usertypes.Setting.{has_own_destruction, is_named, call_storage, stored_value}

abbrev pub Members : Type 0
Members = ℕ → Option Binding

abbrev pub with_member : ℕ → Binding → Members → Members
with_member k b m l = if l == k then some b else m l

abbrev pub entry_of : ℕ → Option Binding → Option IndexCallStorage
entry_of k none = none
entry_of k (some b) = some (call_storage k b)

abbrev pub indexed_by : ℕ → Option Binding → NewIndexCallStorage → NewIndexCallStorage
indexed_by k none target = target
indexed_by k (some b) target = record target {
  index_handler = (call_storage k b).index_handler;
  binding_data = b.address;
}

abbrev pub new_indexed_by : ℕ → Option Binding → NewIndexCallStorage → NewIndexCallStorage
new_indexed_by k none target = target
new_indexed_by k (some b) target = record target {
  new_index_handler = (call_storage k b).new_index_handler;
  new_binding_data = b.address;
}

abbrev pub first_base : NewIndexCallStorage
first_base = record {
  index_handler = index_target_fail;
  new_index_handler = new_index_target_fail;
  binding_data = 0;
  new_binding_data = 0;
}

abbrev pub first_static_base : NewIndexCallStorage
first_static_base = record {
  index_handler = index_target_fail;
  new_index_handler = new_index_target_set;
  binding_data = 0;
  new_binding_data = 0;
}

-- Names that are not stored in any table.
abbrev pub is_indexing : ℕ → Bool
is_indexing k = k == index || (k == new_index || (k == static_index || k == static_new_index))

-- Names that are stored in a table other than the named one.
abbrev pub is_stored : ℕ → Submetatable → Bool
is_stored k smt = not (k == garbage_collect && has_own_destruction smt) && not (is_indexing k)

-- A closure in a table is over the binding of its name.
abbrev pub HoldsMembers : (Members) → Submetatable → Table → Type 0
HoldsMembers m smt t =
    (k : Key) (is_index : Bool) (kind : Kind) (d : ℕ)
    → t k ≡ some (closure is_index kind d)
    → (name : ℕ) × (b : Binding) × (k ≡ string name)
      × (is_stored name smt ≡ true)
      × (m name ≡ some b)
      × (b.address ≡ d)
      × (b.kind ≡ kind)

-- A closure in the named table is over a binding that has no name.
abbrev pub HoldsCalls : (Members) → Storage → Table → Type 0
HoldsCalls m s t =
    (k : Key) (is_index : Bool) (kind : Kind) (d : ℕ)
    → t k ≡ some (closure is_index kind d)
    → (b : Binding) × (binding_at d s.storage ≡ some b)
      × (b.kind ≡ kind)
      × ((l : ℕ) (c : Binding) → m l ≡ some c → (d == c.address) ≡ false)

-- The tables have the binding of a name, and it is not a variable.
abbrev pub IsFast : Tables → ℕ → Binding → Type 0
IsFast ts k b =
    (is_variable b.kind ≡ false)
    × ((k == index || k == new_index) ≡ false)
    × ((smt : Submetatable)
        → is_named smt ≡ false
        → is_stored k smt ≡ true
        → ts.at smt (string k) ≡ some (stored_value b))

pub record IsMembers (s : Storage) (m : Members) : Type 0 where
  pub keys : (k : ℕ) → s.string_keys k ≡ entry_of k (m k)
  pub live : (k : ℕ) (b : Binding) → m k ≡ some b → binding_at b.address s.storage ≡ some b
  pub distinct :
      (k l : ℕ) (b c : Binding)
      → (k == l) ≡ false
      → m k ≡ some b
      → m l ≡ some c
      → (b.address == c.address) ≡ false
  pub bases :
      s.base_index ≡ new_indexed_by new_index (m new_index) (indexed_by index (m index) first_base)
  pub static_bases :
      s.static_base_index
      ≡ new_indexed_by static_new_index
          (m static_new_index)
          (indexed_by static_index (m static_index) first_static_base)
  pub methods : (smt : Submetatable) → is_named smt ≡ false → HoldsMembers m smt (s.tables.at smt)
  pub calls : HoldsCalls m s (s.tables.at named)
  -- As long as no variable has been set, the tables have what is set.
  pub fast :
      s.tables.is_using_index ≡ false → (k : ℕ) (b : Binding) → m k ≡ some b → IsFast s.tables k b

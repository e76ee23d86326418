-- ===== src/Usertypes/Refinement.antt =====
-- The operations on the storage of a usertype are operations on its members.
use sol.Base.{
  ℕ, ◌≡◌, refl, sym, ap, ◌∙◌, Bool, ◌⊎◌, if◌then◌else◌, none, some, inl, inr, Bool-cases,
}
use sol.Usertypes.Storage.{
  index, new_index, static_index, static_new_index, Key, string, other, same_key, set_field,
  Submetatable, named, Kind, Binding, LuaValue, lua_value, closure, Table, Tables, for_each_table,
  Storage, binding_at,
}
use sol.Usertypes.Setting.{is_named, lua_reference_for_each, set_string, set_reference}
use sol.Usertypes.Local.{for_each_table-at}
use sol.Usertypes.Tables.{reference_entry, lua_reference_for_each-IsLocal}
use sol.Usertypes.Placing.{if_cases}
use sol.Usertypes.Members.{Members, with_member, IsMembers}
use sol.Usertypes.Placing.{if_cases}
use sol.Usertypes.Keeping.{kept_keys, kept_live, kept_distinct, kept_base}
use sol.Usertypes.Closures.{kept-HoldsMembers, kept-HoldsCalls, kept-IsFast}

pub set_string-IsMembers :
    (s : Storage) (m : Members) (k : ℕ) (b : Binding)
    → IsMembers s m
    → binding_at b.address s.storage ≡ none
    → IsMembers (set_string k b s) (with_member k b m)
unfolding set_string
set_string-IsMembers s m k b v fresh = record {
  keys = kept_keys s m k b v fresh;
  live = kept_live s m k b v fresh;
  distinct = kept_distinct s m k b v fresh;
  bases = kept_base s m k b v fresh index new_index s.base_index _ refl v.bases;
  static_bases =
      kept_base s m k b v fresh static_index static_new_index s.static_base_index _ refl
        v.static_bases;
  methods = kept-HoldsMembers s m k b v fresh;
  calls = kept-HoldsCalls s m k b v fresh (set_string k b s) refl;
  fast = kept-IsFast s m k b v fresh;
}

-- Lua code reads what it sets, but the tables keep no closures of it.
reference_table :
    (k v : ℕ) (smt : Submetatable) (t : Table) (l : Key) (x : LuaValue)
    → reference_entry k v smt t l ≡ some x
    → (x ≡ lua_value v) ⊎ (t l ≡ some x)
reference_table k v smt t l x e = elim (Bool-cases (is_named smt)) [
  | inl n ↦ inr (ap (λ c. (if c then t else set_field (other k) (lua_value v) t) l) (sym n) ∙ e)
  | inr n ↦
      elim (if_cases (same_key l (other k)) (some (lua_value v)) (t l) (some x)
        (ap (λ c. (if c then t else set_field (other k) (lua_value v) t) l) (sym n) ∙ e)) [
          | inl (c, y) ↦ inl cc
          | inr (c, y) ↦ inr y
        ]
]

-- A name reads the same after a key that is not a string has been set.
reference_table-string :
    (k v : ℕ) (smt : Submetatable) (t : Table) (name : ℕ)
    → reference_entry k v smt t (string name) ≡ t (string name)
reference_table-string k v smt t name = elim (Bool-cases (is_named smt)) [
  | inl n ↦ rw n refl
  | inr n ↦ rw n refl
]

abbrev set_other : ℕ → ℕ → Tables → Tables
set_other k v ts = for_each_table (lua_reference_for_each k v) ts

set_other-at :
    (k v : ℕ) (ts : Tables) (smt : Submetatable)
    → (set_other k v ts).at smt ≡ reference_entry k v smt (ts.at smt)
set_other-at k v ts smt =
    for_each_table-at (lua_reference_for_each k v) (reference_entry k v)
      (lua_reference_for_each-IsLocal k v) smt ts

-- A closure that is there afterwards was there before.
set_other-closure :
    (k v : ℕ) (ts : Tables) (smt : Submetatable) (l : Key) (i : Bool) (kind : Kind) (d : ℕ)
    → (set_other k v ts).at smt l ≡ some (closure i kind d)
    → ts.at smt l ≡ some (closure i kind d)
set_other-closure k v ts smt l i kind d e =
    elim (reference_table k v smt (ts.at smt) l (closure i kind d)
      (ap (λ (t : Table). t l) (sym (set_other-at k v ts smt)) ∙ e)) [ inl x ↦ cc | inr x ↦ x ]

set_other-flag : (k v : ℕ) (ts : Tables) → (set_other k v ts).is_using_index ≡ ts.is_using_index
unfolding for_each_table lua_reference_for_each
set_other-flag k v ts = refl

pub set_other-IsMembers :
    (s : Storage) (m : Members) (k v p : ℕ)
    → IsMembers s m
    → IsMembers (set_reference (other k) v p s) m
unfolding set_reference
set_other-IsMembers s m k v p h = record {
  keys = h.keys;
  live = h.live;
  distinct = h.distinct;
  bases = h.bases;
  static_bases = h.static_bases;
  methods = λ smt n l i kind d e.
      h.methods smt n l i kind d (set_other-closure k v s.tables smt l i kind d e);
  calls = λ l i kind d e. h.calls l i kind d (set_other-closure k v s.tables named l i kind d e);
  fast = λ off l c e.
      let (constant, plain, stored) = h.fast (sym (set_other-flag k v s.tables) ∙ off) l c e in
      (
        constant,
        plain,
        λ smt n on.
            ap (λ (t : Table). t (string l)) (set_other-at k v s.tables smt)
            ∙ (reference_table-string k v smt (s.tables.at smt) l ∙ stored smt n on),
      );
}

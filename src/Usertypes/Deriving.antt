-- ===== src/Usertypes/Deriving.antt =====
-- `update_bases` makes the tables look members up, and changes no member.
use sol.Base.{ℕ, ◌≡◌, refl, sym, ap, ◌∙◌, Bool, true, if◌then◌else◌, some, inl, inr, Bool-cases}
use sol.Usertypes.Storage.{
  base_class_check, base_class_cast, Key, string, same_key, Submetatable, named, Kind, Bases,
  no_bases, base, raw_function, closure, Table, set_field, Tables, for_each_table, Storage,
}
use sol.Usertypes.Setting.{is_named, change_indexing, update_bases_for_each, update_bases}
use sol.Usertypes.Local.{IsLocal, for_each_table-at}
use sol.Usertypes.Tables.{index_tables, same_number}
use sol.Usertypes.Members.{Members, IsMembers}
use sol.Usertypes.Placing.{if_cases, index_tables-closure}

abbrev cast_table : ℕ → ℕ → Table → Table
cast_table check cast t =
    set_field (string base_class_cast) (raw_function cast)
      (set_field (string base_class_check) (raw_function check) t)

abbrev bases_entry : Bases → ℕ → ℕ → Submetatable → Table → Table
bases_entry bases check cast smt t =
    if is_named smt then cast_table check cast t else index_tables bases (cast_table check cast t)

update_bases_for_each-IsLocal :
    (bases : Bases) (check cast : ℕ)
    → IsLocal (update_bases_for_each bases check cast) (bases_entry bases check cast)
unfolding update_bases_for_each change_indexing
update_bases_for_each-IsLocal bases check cast = record {
  own = λ smt ts. elim (Bool-cases (is_named smt)) [
    | inl n ↦ rw (n, same_number smt) refl
    | inr n ↦ rw (n, same_number smt) refl
  ];
  others = λ smt m ts e. elim (Bool-cases (is_named smt)) [
    | inl n ↦ rw (n, e) refl
    | inr n ↦ rw (n, e) refl
  ];
}

raw_field-closure :
    (k l : Key) (f : ℕ) (t : Table) (i : Bool) (kind : Kind) (d : ℕ)
    → set_field k (raw_function f) t l ≡ some (closure i kind d)
    → t l ≡ some (closure i kind d)
raw_field-closure k l f t i kind d e =
    elim (if_cases (same_key l k) (some (raw_function f)) (t l) (some (closure i kind d)) e) [
      | inl (c, x) ↦ cc
      | inr (c, x) ↦ x
    ]

cast_table-closure :
    (check cast : ℕ) (t : Table) (l : Key) (i : Bool) (kind : Kind) (d : ℕ)
    → cast_table check cast t l ≡ some (closure i kind d)
    → t l ≡ some (closure i kind d)
cast_table-closure check cast t l i kind d e =
    let checked = set_field (string base_class_check) (raw_function check) t in
    raw_field-closure (string base_class_check) l check t i kind d
      (raw_field-closure (string base_class_cast) l cast checked i kind d e)

bases_entry-closure :
    (bases : Bases) (check cast : ℕ) (smt : Submetatable) (t : Table) (l : Key) (i : Bool)
    (kind : Kind) (d : ℕ)
    → bases_entry bases check cast smt t l ≡ some (closure i kind d)
    → t l ≡ some (closure i kind d)
bases_entry-closure bases check cast smt t l i kind d e =
    let casted = cast_table check cast t in
    elim (Bool-cases (is_named smt)) [
      | inl n ↦
          cast_table-closure check cast t l i kind d
            (ap (λ c. (if c then casted else index_tables bases casted) l) (sym n) ∙ e)
      | inr n ↦ cast_table-closure check cast t l i kind d (
          index_tables-closure bases casted l i kind d
            (ap (λ c. (if c then casted else index_tables bases casted) l) (sym n) ∙ e))
    ]

abbrev derived : Bases → ℕ → ℕ → Tables → Tables
derived bases check cast ts = for_each_table (update_bases_for_each bases check cast) ts

derived-closure :
    (bases : Bases) (check cast : ℕ) (ts : Tables) (smt : Submetatable) (l : Key) (i : Bool)
    (kind : Kind) (d : ℕ)
    → (derived bases check cast ts).at smt l ≡ some (closure i kind d)
    → ts.at smt l ≡ some (closure i kind d)
derived-closure bases check cast ts smt l i kind d e =
    bases_entry-closure bases check cast smt (ts.at smt) l i kind d (
      ap (λ (t : Table). t l)
        (sym (
          for_each_table-at (update_bases_for_each bases check cast) (bases_entry bases check cast)
            (update_bases_for_each-IsLocal bases check cast) smt ts))
      ∙ e)

derived-flag :
    (bases : Bases) (check cast : ℕ) (ts : Tables)
    → (derived bases check cast ts).is_using_index ≡ true
unfolding for_each_table update_bases_for_each change_indexing
derived-flag bases check cast ts = refl

pub update_bases-IsMembers :
    (s : Storage) (m : Members) (bases : Bases) (check cast : ℕ)
    → IsMembers s m
    → IsMembers (update_bases bases check cast s) m
unfolding update_bases
update_bases-IsMembers s m no_bases check cast v = v
update_bases-IsMembers s m (base n its rest) check cast v =
    let bases = base n its rest in
    record {
      keys = v.keys;
      live = v.live;
      distinct = v.distinct;
      bases = v.bases;
      static_bases = v.static_bases;
      methods = λ smt n l i kind d e.
          v.methods smt n l i kind d (derived-closure bases check cast s.tables smt l i kind d e);
      calls = λ l i kind d e.
          v.calls l i kind d (derived-closure bases check cast s.tables named l i kind d e);
      fast = λ off l c e. let on = derived-flag bases check cast s.tables in cc;
    }

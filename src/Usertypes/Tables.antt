-- ===== src/Usertypes/Tables.antt =====
-- What the functions that `set` passes to `for_each_table` do to each table.
use sol.Base.{
  ℕ, ◌≡◌, refl, sym, ◌∙◌, arith, Bool, true, false, ◌==◌, ◌&&◌, ◌||◌, if◌then◌else◌, inl, inr,
  Bool-cases,
}
use sol.Usertypes.Storage.{
  index, new_index, string, other, Submetatable, value, reference, unique, const_reference,
  const_value, number, Bases, lua_value, index_call, Table, set_field, Tables, for_each_table,
}
use sol.Usertypes.Setting.{
  is_named, change_indexing, StringForEach, has_own_destruction, string_for_each,
  lua_reference_for_each,
}
use sol.Usertypes.Local.{IsLocal}

abbrev pub index_tables : Bases → Table → Table
index_tables bases t =
    set_field (string new_index) (index_call true bases)
      (set_field (string index) (index_call false bases) t)

-- What `string_for_each` does to a table.
abbrev pub string_entry : StringForEach → Submetatable → Table → Table
string_entry fx smt t =
    let poisoned = if fx.poison_indexing then index_tables fx.bases t else t in
    if is_named smt
    then t
    else if fx.is_destruction && has_own_destruction smt
    then poisoned
    else if fx.is_index || (fx.is_new_index || (fx.is_static_index || fx.is_static_new_index))
    then poisoned
    else set_field (string fx.key) fx.stored poisoned

pub same_number : (smt : Submetatable) → (number smt == number smt) ≡ true
same_number smt = ground arith

abbrev is_special : StringForEach → Bool
is_special fx = fx.is_index || (fx.is_new_index || (fx.is_static_index || fx.is_static_new_index))

pub string_for_each-IsLocal : (fx : StringForEach) → IsLocal (string_for_each fx) (string_entry fx)
unfolding string_for_each change_indexing
string_for_each-IsLocal fx = record {
  own = λ smt ts. elim (Bool-cases (is_named smt)) [
    | inl n ↦ rw n refl
    | inr n ↦ elim (Bool-cases fx.poison_indexing) [
      | inl p ↦ elim (Bool-cases (fx.is_destruction && has_own_destruction smt)) [
        | inl d ↦ rw (n, p, d, same_number smt) refl
        | inr d ↦ elim (Bool-cases (is_special fx)) [
          | inl i ↦ rw (n, p, d, i, same_number smt) refl
          | inr i ↦ rw (n, p, d, i, same_number smt) refl
        ]
      ]
      | inr p ↦ elim (Bool-cases (fx.is_destruction && has_own_destruction smt)) [
        | inl d ↦ rw (n, p, d) refl
        | inr d ↦ elim (Bool-cases (is_special fx)) [
          | inl i ↦ rw (n, p, d, i) refl
          | inr i ↦ rw (n, p, d, i, same_number smt) refl
        ]
      ]
    ]
  ];
  others = λ smt m ts e. elim (Bool-cases (is_named smt)) [
    | inl n ↦ rw n refl
    | inr n ↦ elim (Bool-cases fx.poison_indexing) [
      | inl p ↦ elim (Bool-cases (fx.is_destruction && has_own_destruction smt)) [
        | inl d ↦ rw (n, p, d, e) refl
        | inr d ↦ elim (Bool-cases (is_special fx)) [
          | inl i ↦ rw (n, p, d, i, e) refl
          | inr i ↦ rw (n, p, d, i, e) refl
        ]
      ]
      | inr p ↦ elim (Bool-cases (fx.is_destruction && has_own_destruction smt)) [
        | inl d ↦ rw (n, p, d) refl
        | inr d ↦ elim (Bool-cases (is_special fx)) [
          | inl i ↦ rw (n, p, d, i) refl
          | inr i ↦ rw (n, p, d, i, e) refl
        ]
      ]
    ]
  ];
}

string_for_each-flag :
    (fx : StringForEach) (smt : Submetatable) (ts : Tables)
    → is_named smt ≡ false
    → (string_for_each fx smt ts).is_using_index ≡ fx.poison_indexing || ts.is_using_index
unfolding string_for_each change_indexing
string_for_each-flag fx smt ts n = elim (Bool-cases fx.poison_indexing) [
  | inl p ↦ elim (Bool-cases (fx.is_destruction && has_own_destruction smt)) [
    | inl d ↦ rw (n, p, d) refl
    | inr d ↦ elim (Bool-cases (is_special fx)) [
      | inl i ↦ rw (n, p, d, i) refl
      | inr i ↦ rw (n, p, d, i) refl
    ]
  ]
  | inr p ↦ elim (Bool-cases (fx.is_destruction && has_own_destruction smt)) [
    | inl d ↦ rw (n, p, d) refl
    | inr d ↦ elim (Bool-cases (is_special fx)) [
      | inl i ↦ rw (n, p, d, i) refl
      | inr i ↦ rw (n, p, d, i) refl
    ]
  ]
]

pub neither : {a b : Bool} → a || b ≡ false → (a ≡ false) × (b ≡ false)
neither {a = true} e = cc
neither {a = false} e = (refl, e)

-- If the tables do not look members up afterwards, they have not been told to, then or before.
pub for_each_table-unpoisoned :
    (fx : StringForEach) (ts : Tables)
    → (for_each_table (string_for_each fx) ts).is_using_index ≡ false
    → (fx.poison_indexing ≡ false) × (ts.is_using_index ≡ false)
unfolding for_each_table string_for_each
for_each_table-unpoisoned fx ts e =
    let ts1 = string_for_each fx value ts in
    let ts2 = string_for_each fx reference ts1 in
    let ts3 = string_for_each fx unique ts2 in
    let ts4 = string_for_each fx const_reference ts3 in
    let last = neither (sym (string_for_each-flag fx const_value ts4 refl) ∙ e) in
    let fourth = neither (sym (string_for_each-flag fx const_reference ts3 refl) ∙ last.1) in
    let third = neither (sym (string_for_each-flag fx unique ts2 refl) ∙ fourth.1) in
    let second = neither (sym (string_for_each-flag fx reference ts1 refl) ∙ third.1) in
    neither (sym (string_for_each-flag fx value ts refl) ∙ second.1)

-- What `lua_reference_for_each` does to a table.
abbrev pub reference_entry : ℕ → ℕ → Submetatable → Table → Table
reference_entry k v smt t = if is_named smt then t else set_field (other k) (lua_value v) t

pub lua_reference_for_each-IsLocal :
    (k v : ℕ) → IsLocal (lua_reference_for_each k v) (reference_entry k v)
unfolding lua_reference_for_each
lua_reference_for_each-IsLocal k v = record {
  own = λ smt ts. elim (Bool-cases (is_named smt)) [
    | inl n ↦ rw n refl
    | inr n ↦ rw (n, same_number smt) refl
  ];
  others =
      λ smt m ts e. elim (Bool-cases (is_named smt)) [ inl n ↦ rw n refl | inr n ↦ rw (n, e) refl ];
}

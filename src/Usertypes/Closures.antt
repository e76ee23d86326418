-- ===== src/Usertypes/Closures.antt =====
-- What `set` with a string does to the tables.
use sol.Base.{
  ℕ, ◌≡◌, refl, sym, ap, ◌∙◌, arith, Bool, true, false, not, ◌==◌, ◌&&◌, ◌||◌, if◌then◌else◌, none,
  some, inl, inr, Bool-cases,
}
use sol.Usertypes.Storage.{
  index, new_index, Key, string, other, same_key, Submetatable, named, Kind, is_variable, Binding,
  closure, Table, Tables, set_field, for_each_table, Storage, binding_at,
}
use sol.Usertypes.Setting.{
  is_named, string_for_each, StringForEach, stored_value, string_for_each_of,
}
use sol.Usertypes.Bindings.{not_fresh}
use sol.Usertypes.Local.{for_each_table-at}
use sol.Usertypes.Tables.{
  index_tables, string_entry, string_for_each-IsLocal, for_each_table-unpoisoned, neither,
}
use sol.Usertypes.Members.{
  Members, with_member, is_stored, HoldsMembers, HoldsCalls, IsFast, IsMembers,
}
use sol.Usertypes.Keeping.{placed}
use sol.Usertypes.Placing.{
  placed_other, if_cases, member_cases, index_tables-closure, string_entry-stored,
  stored_value-closure,
}

-- A storage with an abstract view, and a binding at a free address that is set under the name `k`.
module _ (s : Storage) (m : Members) (k : ℕ) (b : Binding) (v : IsMembers s m)
    (fresh : binding_at b.address s.storage ≡ none) where
  abbrev pub fx : StringForEach
  fx = string_for_each_of k b s

  abbrev poisoned : Table → Table
  poisoned t = if fx.poison_indexing then index_tables fx.bases t else t

  poisoned-closure :
      (t : Table) (l : Key) (i : Bool) (kind : Kind) (d : ℕ)
      → poisoned t l ≡ some (closure i kind d)
      → t l ≡ some (closure i kind d)
  poisoned-closure t l i kind d e = elim (Bool-cases fx.poison_indexing) [
    | inl p ↦
        index_tables-closure fx.bases t l i kind d
          (ap (λ c. (if c then index_tables fx.bases t else t) l) (sym p) ∙ e)
    | inr p ↦ ap (λ c. (if c then index_tables fx.bases t else t) l) (sym p) ∙ e
  ]

  abbrev pub changed : Tables
  changed = for_each_table (string_for_each fx) s.tables

  changed-at :
      (smt : Submetatable)
      → is_named smt ≡ false
      → changed.at smt ≡ (
          if is_stored k smt
          then set_field (string k) (stored_value b) (poisoned (s.tables.at smt))
          else poisoned (s.tables.at smt))
  changed-at smt n =
      for_each_table-at (string_for_each fx) (string_entry fx) (string_for_each-IsLocal fx) smt
        s.tables
      ∙ string_entry-stored k b s smt (s.tables.at smt) n

  -- A closure that was there, under a name that is stored where `k` is not or is another name.
  kept_closure :
      (smt : Submetatable) (l : Key) (i : Bool) (kind : Kind) (d : ℕ)
      → is_named smt ≡ false
      → ((name : ℕ) → l ≡ string name → is_stored name smt ≡ true → (name == k) ≡ false)
      → s.tables.at smt l ≡ some (closure i kind d)
      → (name : ℕ) × (c : Binding) × (l ≡ string name)
        × (is_stored name smt ≡ true)
        × (with_member k b m name ≡ some c)
        × (c.address ≡ d)
        × (c.kind ≡ kind)
  kept_closure smt l i kind d n apart e =
      let (name, c, at_name, stored, there, place, same) = v.methods smt n l i kind d e in
      (name, c, at_name, stored, rw (apart name at_name stored) there, place, same)

  same_key-false :
      (l : Key) (name : ℕ) → l ≡ string name → same_key l (string k) ≡ false → (name == k) ≡ false
  same_key-false l name at_name e = ap (λ q. same_key q (string k)) (sym at_name) ∙ e

  same_key-true : (l : Key) → same_key l (string k) ≡ true → l ≡ string k
  same_key-true (string l) e = let same : l ≡ k = ground arith in ap string same
  same_key-true (other l) e = cc

  unstored :
      (smt : Submetatable) (name : ℕ)
      → is_stored k smt ≡ false
      → is_stored name smt ≡ true
      → (name == k) ≡ false
  unstored smt name off on = elim (Bool-cases (name == k)) [
    | inl e ↦
        let same : name ≡ k = ground arith in
        let on_k : is_stored k smt ≡ true = ap (λ q. is_stored q smt) (sym same) ∙ on in cc
    | inr e ↦ e
  ]

  pub kept-HoldsMembers :
      (smt : Submetatable)
      → is_named smt ≡ false
      → HoldsMembers (with_member k b m) smt (changed.at smt)
  kept-HoldsMembers smt n l i kind d e =
      let t = poisoned (s.tables.at smt) in
      let there = ap (λ (t : Table). t l) (sym (changed-at smt n)) ∙ e in
      elim (Bool-cases (is_stored k smt)) [
        | inl stored ↦
            elim (if_cases (same_key l (string k)) (some (stored_value b)) (t l)
              (some (closure i kind d))
              (ap (λ c. (if c then set_field (string k) (stored_value b) t else t) l) (sym stored)
                ∙ there)) [
                  | inl (same, x) ↦
                      let (place, kinds) = stored_value-closure b i kind d x in
                      let own : (k == k) ≡ true = ground arith in
                      (k, b, same_key-true l same, stored, rw own refl, place, kinds)
                  | inr (differs, x) ↦
                      kept_closure smt l i kind d n
                        (λ name at_name on. same_key-false l name at_name differs)
                        (poisoned-closure (s.tables.at smt) l i kind d x)
                ]
        | inr unset ↦
            kept_closure smt l i kind d n (λ name at_name on. unstored smt name unset on)
              (poisoned-closure (s.tables.at smt) l i kind d (
                ap (λ c. (if c then set_field (string k) (stored_value b) t else t) l) (sym unset)
                ∙ there))
      ]

  pub kept-HoldsCalls :
      (changed_s : Storage)
      → changed_s.storage ≡ placed s m k b v fresh
      → HoldsCalls (with_member k b m) changed_s (changed.at named)
  kept-HoldsCalls changed_s stored l i kind d e =
      let named_kept : changed.at named ≡ s.tables.at named =
        for_each_table-at (string_for_each fx) (string_entry fx) (string_for_each-IsLocal fx) named
          s.tables in
      let (c, there, kinds, unnamed) =
        v.calls l i kind d (ap (λ (t : Table). t l) (sym named_kept) ∙ e) in
      (
        c,
        ap (binding_at d) stored ∙ placed_other s m k d b c v fresh there (unnamed k),
        kinds,
        λ n x at_n. elim (member_cases k n b x m at_n) [
          | inl (same, y) ↦ rw⁻¹ y (not_fresh d b.address c s.storage there fresh)
          | inr (differs, y) ↦ unnamed n x y
        ],
      )

  unpoisoned_binding :
      fx.poison_indexing ≡ false
      → s.tables.is_using_index ≡ false
      → (is_variable b.kind ≡ false) × ((k == index || k == new_index) ≡ false)
  unfolding string_for_each_of
  unpoisoned_binding p u = neither (
      ap
        (λ c.
          (not c || not s.tables.is_using_new_index)
          && (is_variable b.kind || (k == index || k == new_index)))
        (sym u)
      ∙ p)

  stored_new :
      (smt : Submetatable)
      → is_named smt ≡ false
      → is_stored k smt ≡ true
      → changed.at smt (string k) ≡ some (stored_value b)
  stored_new smt n on =
      let own : (k == k) ≡ true = ground arith in
      ap (λ (t : Table). t (string k)) (changed-at smt n) ∙ rw (on, own) refl

  -- Another name reads the same, as long as the tables do not look members up.
  stored_old :
      (smt : Submetatable) (l : ℕ)
      → is_named smt ≡ false
      → fx.poison_indexing ≡ false
      → (l == k) ≡ false
      → changed.at smt (string l) ≡ s.tables.at smt (string l)
  stored_old smt l n p differs =
      ap (λ (t : Table). t (string l)) (changed-at smt n) ∙ elim (Bool-cases (is_stored k smt)) [
        | inl on ↦ rw (on, differs, p) refl
        | inr off ↦ rw (off, p) refl
      ]

  pub kept-IsFast :
      changed.is_using_index ≡ false
      → (l : ℕ) (c : Binding) → with_member k b m l ≡ some c
      → IsFast changed l c
  kept-IsFast off l c e =
      let (p, u) = for_each_table-unpoisoned fx s.tables off in
      let (constant, plain) = unpoisoned_binding p u in
      elim (member_cases k l b c m e) [
        | inl (same, x) ↦ rw (same, sym x) (constant, plain, stored_new)
        | inr (differs, x) ↦
            let (constant_c, plain_c, stored_c) = v.fast u l c x in
            (constant_c, plain_c, λ smt n on. stored_old smt l n p differs ∙ stored_c smt n on)
      ]

-- ===== src/Usertypes/Placing.antt =====
-- What `set` with a string keeps of the bindings, of the handlers and of the tables.
use sol.Base.{
  ℕ, ◌≡◌, refl, sym, ap, ◌∙◌, arith, Bool, true, false, ◌==◌, ◌&&◌, ◌⊎◌, if◌then◌else◌, Option,
  none, some, inl, inr, Bool-cases, Option-cases,
}
use sol.Usertypes.Storage.{
  index, new_index, garbage_collect, Key, string, same_key, Submetatable, Kind, Binding, Bases,
  closure, index_call, c_function, lua_reference, variable, function, NewIndexCallStorage, Table,
  set_field, Storage, binding_at,
}
use sol.Usertypes.Setting.{
  has_own_destruction, is_named, place_binding, call_storage, stored_for, stored_value, set_base,
  string_for_each_of,
}
use sol.Usertypes.Bindings.{
  binding_at-push_self, binding_at-push, binding_at-replace_self, binding_at-replace, not_fresh,
}
use sol.Usertypes.Tables.{index_tables, string_entry}
use sol.Usertypes.Members.{
  Members, with_member, indexed_by, new_indexed_by, is_indexing, is_stored, IsMembers,
}

pub some_eq : (x y : Binding) → some x ≡ some y → x ≡ y
some_eq x y e = ap (λ (o : Option Binding). elim o [ none ↦ x | some z ↦ z ]) e

-- The new binding is there.
pub placed_self :
    (s : Storage) (m : Members) (k : ℕ) (b : Binding)
    → IsMembers s m
    → binding_at b.address s.storage ≡ none
    → binding_at b.address (place_binding (s.string_keys k) b s.storage) ≡ some b
unfolding place_binding
placed_self s m k b v fresh = elim (Option-cases (m k)) [
  | inl e ↦ rw (v.keys k, e) (binding_at-push_self b s.storage fresh)
  | inr (c, e) ↦
      rw (v.keys k, e) (binding_at-replace_self (call_storage k c).binding_data b s.storage fresh)
]

-- A binding that had another name, or none, is still there.
pub placed_other :
    (s : Storage) (m : Members) (k d : ℕ) (b x : Binding)
    → IsMembers s m
    → binding_at b.address s.storage ≡ none
    → binding_at d s.storage ≡ some x
    → ((c : Binding) → m k ≡ some c → (d == c.address) ≡ false)
    → binding_at d (place_binding (s.string_keys k) b s.storage) ≡ some x
unfolding place_binding call_storage
placed_other s m k d b x v fresh there unnamed = elim (Option-cases (m k)) [
  | inl e ↦ rw (v.keys k, e) (binding_at-push d b x s.storage there)
  | inr (c, e) ↦
      let other_address = not_fresh d b.address x s.storage there fresh in
      rw (v.keys k, e)
        (binding_at-replace c.address d b x s.storage (unnamed c e) other_address there)
]

pub if_cases {ℓ} :
    {A : Type ℓ} (c : Bool) (x y w : A)
    → (if c then x else y) ≡ w
    → ((c ≡ true) × (x ≡ w)) ⊎ ((c ≡ false) × (y ≡ w))
if_cases true x y w e = inl (refl, e)
if_cases false x y w e = inr (refl, e)

-- A name with the new binding, or another name.
pub member_cases :
    (k l : ℕ) (b c : Binding) (m : Members)
    → with_member k b m l ≡ some c
    → ((l ≡ k) × (b ≡ c)) ⊎ (((l == k) ≡ false) × (m l ≡ some c))
member_cases k l b c m e = elim (if_cases (l == k) (some b) (m l) (some c) e) [
  | inl (same, x) ↦ inl (ground arith, some_eq b c x)
  | inr r ↦ inr r
]

not_closure :
    (i j : Bool) (kind : Kind) (d : ℕ) (bases : Bases) {A : Type 0}
    → some (index_call j bases) ≡ some (closure i kind d)
    → A
not_closure i j kind d bases e = cc

-- The closures of a table after it looks members up.
pub index_tables-closure :
    (bases : Bases) (t : Table) (k : Key) (i : Bool) (kind : Kind) (d : ℕ)
    → index_tables bases t k ≡ some (closure i kind d)
    → t k ≡ some (closure i kind d)
index_tables-closure bases t k i kind d e =
    elim (if_cases (same_key k (string new_index)) (some (index_call true bases))
      (if same_key k (string index) then some (index_call false bases) else t k)
      (some (closure i kind d)) e) [
        | inl (n, x) ↦ not_closure i true kind d bases x
        | inr (n, x) ↦
            elim (if_cases (same_key k (string index)) (some (index_call false bases)) (t k)
              (some (closure i kind d)) x) [
                | inl (o, y) ↦ not_closure i false kind d bases y
                | inr (o, y) ↦ y
              ]
      ]

-- What a table gets for a binding, and where.
pub string_entry-stored :
    (k : ℕ) (b : Binding) (s : Storage) (smt : Submetatable) (t : Table)
    → is_named smt ≡ false
    → string_entry (string_for_each_of k b s) smt t ≡ (
        let fx = string_for_each_of k b s in
        let poisoned = if fx.poison_indexing then index_tables fx.bases t else t in
        if is_stored k smt then set_field (string k) (stored_value b) poisoned else poisoned)
unfolding string_for_each_of
string_entry-stored k b s smt t n =
    elim (Bool-cases (k == garbage_collect && has_own_destruction smt)) [
      | inl g ↦ rw (n, g) refl
      | inr g ↦ elim (Bool-cases (is_indexing k)) [
        | inl i ↦ rw (n, g, i) refl
        | inr i ↦ rw (n, g, i) refl
      ]
    ]

stored_for-closure :
    (x kind : Kind) (i : Bool) (content address d : ℕ)
    → some (stored_for x content address) ≡ some (closure i kind d)
    → (address ≡ d) × (x ≡ kind)
stored_for-closure c_function kind i content address d e = cc
stored_for-closure lua_reference kind i content address d e = cc
stored_for-closure variable kind i content address d e = (cc, cc)
stored_for-closure function kind i content address d e = (cc, cc)

pub stored_value-closure :
    (b : Binding) (i : Bool) (kind : Kind) (d : ℕ)
    → some (stored_value b) ≡ some (closure i kind d)
    → (b.address ≡ d) × (b.kind ≡ kind)
unfolding stored_value
stored_value-closure b i kind d e = stored_for-closure b.kind kind i b.content b.address d e

pub set_base-indexed :
    (ci cn : Bool) (mi mn : Option Binding) (k i n : ℕ) (b : Binding) (start : NewIndexCallStorage)
    → (ci ≡ true → k ≡ i)
    → (cn ≡ true → k ≡ n)
    → set_base ci cn (call_storage k b) (new_indexed_by n mn (indexed_by i mi start))
      ≡ new_indexed_by n
          (if cn then some b else mn)
          (indexed_by i (if ci then some b else mi) start)
unfolding set_base call_storage
set_base-indexed true true none none k i n b start e f = rw (e refl, sym (e refl) ∙ f refl) refl
set_base-indexed true true none (some y) k i n b start e f = rw (e refl, sym (e refl) ∙ f refl) refl
set_base-indexed true true (some x) none k i n b start e f = rw (e refl, sym (e refl) ∙ f refl) refl
set_base-indexed true true (some x) (some y) k i n b start e f =
    rw (e refl, sym (e refl) ∙ f refl) refl
set_base-indexed true false none none k i n b start e f = rw (e refl) refl
set_base-indexed true false none (some y) k i n b start e f = rw (e refl) refl
set_base-indexed true false (some x) none k i n b start e f = rw (e refl) refl
set_base-indexed true false (some x) (some y) k i n b start e f = rw (e refl) refl
set_base-indexed false true none none k i n b start e f = rw (f refl) refl
set_base-indexed false true none (some y) k i n b start e f = rw (f refl) refl
set_base-indexed false true (some x) none k i n b start e f = rw (f refl) refl
set_base-indexed false true (some x) (some y) k i n b start e f = rw (f refl) refl
set_base-indexed false false none none k i n b start e f = refl
set_base-indexed false false none (some y) k i n b start e f = refl
set_base-indexed false false (some x) none k i n b start e f = refl
set_base-indexed false false (some x) (some y) k i n b start e f = refl

-- ===== src/Usertypes/Keeping.antt =====
-- `set` with a string gives a name a binding, and keeps the others.
use sol.Base.{ℕ, ◌≡◌, ap, arith, false, ◌==◌, List, none, some, inl, inr, Bool-cases}
use sol.Usertypes.Storage.{Binding, NewIndexCallStorage, Storage, binding_at}
use sol.Usertypes.Setting.{place_binding, add_entry, call_storage, set_base}
use sol.Usertypes.Bindings.{not_fresh}
use sol.Usertypes.Members.{Members, with_member, entry_of, indexed_by, new_indexed_by, IsMembers}
use sol.Usertypes.Placing.{placed_self, placed_other, member_cases, set_base-indexed}

-- A storage with an abstract view, and a binding at a free address that is set under the name `k`.
module _ (s : Storage) (m : Members) (k : ℕ) (b : Binding) (v : IsMembers s m)
    (fresh : binding_at b.address s.storage ≡ none) where
  pub kept_keys :
      (l : ℕ) → add_entry k (call_storage k b) s.string_keys l ≡ entry_of l (with_member k b m l)
  unfolding add_entry
  kept_keys l = elim (Bool-cases (l == k)) [
    | inl e ↦ let same : k ≡ l = ground arith in rw e (ap (λ n. some (call_storage n b)) same)
    | inr e ↦ rw e (v.keys l)
  ]

  abbrev pub placed : List Binding
  placed = place_binding (s.string_keys k) b s.storage

  unnamed :
      (l : ℕ) (c x : Binding)
      → (l == k) ≡ false
      → m l ≡ some c
      → m k ≡ some x
      → (c.address == x.address) ≡ false
  unnamed l c x differs there place = v.distinct l k c x differs there place

  pub kept_live :
      (l : ℕ) (c : Binding) → with_member k b m l ≡ some c → binding_at c.address placed ≡ some c
  kept_live l c e = elim (member_cases k l b c m e) [
    | inl (same, x) ↦ rw⁻¹ x (placed_self s m k b v fresh)
    | inr (differs, there) ↦
        placed_other s m k c.address b c v fresh (v.live l c there)
          (λ x place. unnamed l c x differs there place)
  ]

  pub new_address : (l : ℕ) (c : Binding) → m l ≡ some c → (b.address == c.address) ≡ false
  new_address l c there =
      let differs = not_fresh c.address b.address c s.storage (v.live l c there) fresh in
      ground arith

  pub kept_distinct :
      (l n : ℕ) (c d : Binding)
      → (l == n) ≡ false
      → with_member k b m l ≡ some c
      → with_member k b m n ≡ some d
      → (c.address == d.address) ≡ false
  kept_distinct l n c d differs e f = elim (member_cases k l b c m e) [
    | inl (same, x) ↦ elim (member_cases k n b d m f) [
      | inl (same1, y) ↦ ground arith
      | inr (other1, there) ↦ rw⁻¹ x (new_address n d there)
    ]
    | inr (other1, there) ↦ elim (member_cases k n b d m f) [
      | inl (same1, y) ↦ let apart = new_address l c there in rw⁻¹ y (ground arith)
      | inr (other2, there2) ↦ v.distinct l n c d differs there there2
    ]
  ]

  pub kept_base :
      (i n : ℕ) (target start : NewIndexCallStorage)
      → (i == n) ≡ false
      → target ≡ new_indexed_by n (m n) (indexed_by i (m i) start)
      → set_base (k == i) (k == n) (call_storage k b) target
        ≡ new_indexed_by n (with_member k b m n) (indexed_by i (with_member k b m i) start)
  kept_base i n target start differs e =
      let turn_i : (k == i) ≡ (i == k) = ground arith in
      let turn_n : (k == n) ≡ (n == k) = ground arith in
      rw (e, turn_i, turn_n)
        (set_base-indexed (i == k) (n == k) (m i) (m n) k i n b start (λ same. ground arith)
          (λ same. ground arith))

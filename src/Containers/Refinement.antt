-- ===== src/Containers/Refinement.antt =====
-- Maps against Lua tables.
use mathlib.Core.Path.{fun_ext}
use mathlib.Core.Option
use sol.Base.{
  ℕ, zero, suc, ◌==◌, ◌<◌, ◌≡◌, refl, ap, ◌∙◌, arith, false, if◌then◌else◌, Option, none, some,
  List, [], ◌∷◌, length, Option-cases, inl, inr,
}
use sol.Containers.Maps.{
  StdMap, IsMap, lookup, get_associative_find, set_associative_find, set_associative,
  add_associative, insert_lookup, visit_from, pairs_associative,
}

-- What Lua code does to a map.
pub data Change (A : Type 0) : Type 0 where
  set : ℕ → Option A → Change A
  add insert : ℕ → A → Change A
  erase : ℕ → Change A
  clear : Change A

-- The contents of a Lua table.
abbrev pub Table : Type 0 → Type 0
Table A = ℕ → Option A

module _ {A : Type 0} where
  abbrev pub update : Table A → ℕ → Option A → Table A
  update t k v j = if k == j then v else t j

  -- A value is added where there is none.
  abbrev pub kept : Option A → A → Option A
  kept none v = some v
  kept (some w) v = some w

  -- What a change is to a table. `insert` is an addition at the key that the value is read as.
  abbrev pub table_change : (A → ℕ) → Table A → Change A → Table A
  table_change as_key t (set k v) = update t k v
  table_change as_key t (add k v) = update t k (kept (t k) v)
  table_change as_key t (insert k v) = update t (as_key v) (kept (t (as_key v)) v)
  table_change as_key t (erase k) = update t k none
  table_change as_key t clear = λ j. none

  abbrev pub table_changes : (A → ℕ) → Table A → List (Change A) → Table A
  table_changes as_key t [] = t
  table_changes as_key t (c ∷ cs) = table_changes as_key (table_change as_key t c) cs

module _ {A : Type 0} (m : StdMap A) (as_key : A → ℕ) where
  abbrev pub change : m.Container → Change A → m.Container
  change self (set k v) = set_associative m self k v
  change self (add k v) = add_associative m self k v
  change self (insert k v) = insert_lookup m as_key self k v
  change self (erase k) = m.erase self k
  change self clear = m.clear self

  abbrev pub changes : m.Container → List (Change A) → m.Container
  changes self [] = self
  changes self (c ∷ cs) = changes (change self c) cs

  module _ (laws : IsMap m) where
    add_lem :
        (self : m.Container) (k j : ℕ) (v : A)
        → m.find (m.insert self k v) j ≡ update (m.find self) k (kept (m.find self k) v) j
    add_lem self k j v = elim (Option-cases (m.find self k)) [
      | inl e ↦ rw (e, laws.find-insert self k j v e) refl
      | inr (w, e) ↦ ground (arith, e, laws.find-insert_present self k j v w e)
    ]

    set_lem :
        (self : m.Container) (k j : ℕ) (v : A)
        → m.find (set_associative_find m self k v) j ≡ update (m.find self) k (some v) j
    unfolding set_associative_find
    set_lem self k j v = elim (Option-cases (m.find self k)) [
      | inl e ↦ ground (arith, e, laws.find-insert self k j v e)
      | inr (w, e) ↦ ground (arith, e, laws.find-assign self k j v w e)
    ]

    change_lem :
        (self : m.Container) (c : Change A) (j : ℕ)
        → m.find (change self c) j ≡ table_change as_key (m.find self) c j
    unfolding set_associative add_associative insert_lookup
    change_lem self (set k none) j = laws.find-erase self k j
    change_lem self (set k (some v)) j = set_lem self k j v
    change_lem self (add k v) j = add_lem self k j v
    change_lem self (insert k v) j = add_lem self (as_key v) j v
    change_lem self (erase k) j = laws.find-erase self k j
    change_lem self clear j = laws.find-clear self j

    -- A table that agrees with a map agrees with it after any changes.
    changes_lem :
        (cs : List (Change A)) (self : m.Container) (t : Table A)
        → ((j : ℕ) → m.find self j ≡ t j)
        → (j : ℕ) → m.find (changes self cs) j ≡ table_changes as_key t cs j
    changes_lem [] self t h j = h j
    changes_lem (c ∷ cs) self t h j =
        changes_lem cs (change self c) (table_change as_key t c)
          (λ k. change_lem self c k ∙ ap (λ (f : Table A). table_change as_key f c k) (fun_ext h)) j

    -- After any changes of a map, `get` of a key is what a Lua table holds there that began with the same
    -- contents and was changed in the same way: `set` of a value, of nil, `erase` and `clear` do what they
    -- do to tables, `add` leaves a key that is there alone, and so does `insert`, whose key is the one that
    -- its value is read as.
    pub get-changes :
        (self : m.Container) (cs : List (Change A)) (j : ℕ)
        → get_associative_find m (changes self cs) j
          ≡ table_changes as_key (get_associative_find m self) cs j
    unfolding get_associative_find
    get-changes self cs j = changes_lem cs self (m.find self) (λ k. refl) j

module _ {A : Type 0} (m : StdMap A) (laws : IsMap m) where
  visit_pairs :
      (fuel i : ℕ) (it : List (ℕ × A)) → length it < fuel → visit_from m false fuel i it ≡ some it
  unfolding visit_from
  visit_pairs zero i it h = absurd (omega arith)
  visit_pairs (suc fuel) i [] h = refl
  visit_pairs (suc fuel) i ((k, v) ∷ it) h = rw (visit_pairs fuel i it (omega arith)) refl

  -- The loop over `pairs` visits entries of which the first at each key is the value that `get` of the
  -- key gives, and none is at the other keys.
  pub pairs-get :
      (self : m.Container) (j : ℕ)
      → (visited : List (ℕ × A)) × (pairs_associative m false self ≡ some visited)
        × (lookup j visited ≡ get_associative_find m self j)
  unfolding pairs_associative get_associative_find
  pairs-get self j = (
    m.entries self,
    visit_pairs (suc (length (m.entries self))) 0 (m.entries self) (omega arith),
    laws.entries-find self j,
  )

-- ===== src/Containers/Maps.antt =====
-- Associative containers whose keys are unique, such as std::map: K is a number, and two keys are
-- equivalent if they are equal.
use sol.Base.{
  ℕ, zero, suc, ◌+◌, ◌==◌, ◌≡◌, Bool, if◌then◌else◌, Option, none, some, List, [], ◌∷◌, length,
}

-- The container of the C++ library. `find` is what the iterator that `find` returns refers to, and
-- `none` stands for the end. `assign` is `v.second = value` at that iterator. `entries` are the keys and
-- values from `begin` to `end`.
pub record StdMap (A : Type 0) : Type 1 where
  pub Container : Type 0
  pub find : Container → ℕ → Option A
  pub assign : Container → ℕ → A → Container
  pub insert : Container → ℕ → A → Container
  pub erase : Container → ℕ → Container
  pub clear : Container → Container
  pub entries : Container → List (ℕ × A)

-- The first value at a key.
abbrev pub lookup : {A : Type 0} → ℕ → List (ℕ × A) → Option A
lookup k [] = none
lookup k ((j, v) ∷ xs) = if j == k then some v else lookup k xs

-- What the C++ library says of a container with unique keys: `insert` leaves a key that is there alone.
pub record IsMap {A : Type 0} (m : StdMap A) : Type 0 where
  pub entries-find : (c : m.Container) (k : ℕ) → lookup k (m.entries c) ≡ m.find c k
  pub find-assign :
      (c : m.Container) (k j : ℕ) (v w : A)
      → m.find c k ≡ some w
      → m.find (m.assign c k v) j ≡ (if k == j then some v else m.find c j)
  pub find-insert :
      (c : m.Container) (k j : ℕ) (v : A)
      → m.find c k ≡ none
      → m.find (m.insert c k v) j ≡ (if k == j then some v else m.find c j)
  pub find-insert_present :
      (c : m.Container) (k j : ℕ) (v w : A)
      → m.find c k ≡ some w
      → m.find (m.insert c k v) j ≡ m.find c j
  pub find-erase :
      (c : m.Container) (k j : ℕ) → m.find (m.erase c k) j ≡ (if k == j then none else m.find c j)
  pub find-clear : (c : m.Container) (j : ℕ) → m.find (m.clear c) j ≡ none

module _ {A : Type 0} (m : StdMap A) where
  -- `get`: `none` is the nil that is pushed.
  unfoldable pub get_associative_find : m.Container → ℕ → Option A
  get_associative_find self key = m.find self key

  unfoldable pub set_associative_find : m.Container → ℕ → A → m.Container
  set_associative_find self key value = elim (m.find self key) [
    | none ↦ m.insert self key value
    | some _ ↦ m.assign self key value
  ]

  -- `set`: nil erases the key.
  unfoldable pub set_associative : m.Container → ℕ → Option A → m.Container
  unfolding set_associative_find
  set_associative self key none = m.erase self key
  set_associative self key (some value) = set_associative_find self key value

  -- `add`, with a key and a value.
  unfoldable pub add_associative : m.Container → ℕ → A → m.Container
  add_associative self key value = m.insert self key value

  -- `insert`, with a key and a value: the value is passed on as the key, and read as one.
  unfoldable pub insert_lookup : (A → ℕ) → m.Container → ℕ → A → m.Container
  unfolding add_associative
  insert_lookup as_key self key value = add_associative self (as_key value) value

  -- The index of an entry, by `std::distance` from `begin`.
  unfoldable pub distance : ℕ → List (ℕ × A) → ℕ
  distance k [] = 0
  distance k ((j, v) ∷ xs) = if j == k then 0 else suc (distance k xs)

  -- `index_of` of an ordered container.
  unfoldable pub index_of : m.Container → ℕ → Option ℕ
  unfolding distance
  index_of self key = elim (m.find self key) [
    | none ↦ none
    | some _ ↦ some (distance key (m.entries self) + 1)
  ]

  -- The loop over `pairs` or `ipairs`, from an iterator on: `next_associative`, which pushes the key or
  -- counts, with fuel.
  unfoldable pub next_associative : Bool → ℕ → List (ℕ × A) → Option ((ℕ × A) × ℕ × List (ℕ × A))
  next_associative ip i [] = none
  next_associative ip i ((k, v) ∷ rest) =
      some ((if ip then suc i else k, v), (if ip then suc i else i), rest)

  unfoldable pub visit_from : Bool → ℕ → ℕ → List (ℕ × A) → Option (List (ℕ × A))
  unfolding next_associative
  visit_from ip zero i it = none
  visit_from ip (suc fuel) i it = elim (next_associative ip i it) [
    | none ↦ some []
    | some (kv, i', rest) ↦ elim (visit_from ip fuel i' rest) [
      | none ↦ none
      | some visited ↦ some (kv ∷ visited)
    ]
  ]

  unfoldable pub pairs_associative : Bool → m.Container → Option (List (ℕ × A))
  unfolding visit_from
  pairs_associative ip self = visit_from ip (suc (length (m.entries self))) 0 (m.entries self)

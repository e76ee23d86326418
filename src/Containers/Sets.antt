-- ===== src/Containers/Sets.antt =====
-- Containers of keys with nothing beside them, such as std::set.
use mathlib.Core.Path.{fun_ext}
use sol.Base.{
  ℕ, ◌==◌, ◌≡◌, refl, ap, ◌∙◌, arith, Bool, true, false, if◌then◌else◌, Option, none, some, List,
  [], ◌∷◌, ◌||◌, Bool-cases, inl, inr,
}

-- The container of the C++ library: whether `find` finds a key, and the keys from `begin` to `end`.
pub record StdSet : Type 1 where
  pub Container : Type 0
  pub has : Container → ℕ → Bool
  pub insert : Container → ℕ → Container
  pub erase : Container → ℕ → Container
  pub clear : Container → Container
  pub keys : Container → List ℕ

abbrev pub member : ℕ → List ℕ → Bool
member k [] = false
member k (j ∷ js) = j == k || member k js

-- What the C++ library says of it.
pub record IsStdSet (m : StdSet) : Type 0 where
  pub keys-has : (c : m.Container) (k : ℕ) → member k (m.keys c) ≡ m.has c k
  pub has-insert : (c : m.Container) (k j : ℕ) → m.has (m.insert c k) j ≡ (k == j || m.has c j)
  pub has-erase :
      (c : m.Container) (k j : ℕ) → m.has (m.erase c k) j ≡ (if k == j then false else m.has c j)
  pub has-clear : (c : m.Container) (j : ℕ) → m.has (m.clear c) j ≡ false

-- What Lua code does to a set. The value that is set is read only to see whether it is nil.
pub data SetChange : Type 0 where
  set : ℕ → Bool → SetChange
  add erase : ℕ → SetChange
  insert : ℕ → ℕ → SetChange
  clear : SetChange

module _ (m : StdSet) where
  -- `get`, by comparison with each key.
  unfoldable pub get_comparative : ℕ → List ℕ → Option ℕ
  get_comparative key [] = none
  get_comparative key (r ∷ rest) =
      let later = get_comparative key rest in if key == r then some r else later

  unfoldable pub get_key : m.Container → ℕ → Option ℕ
  unfolding get_comparative
  get_key self key = get_comparative key (m.keys self)

  -- `set` of a key: the iterator of a set is not writable. With the container there is whether the
  -- operation ends with an error.
  unfoldable pub set_key : m.Container → ℕ → m.Container × Bool
  set_key self key = if m.has self key then (self, true) else (m.insert self key, false)

  unfoldable pub add_insert : m.Container → ℕ → m.Container
  add_insert self value = m.insert self value

  unfoldable pub change_set : m.Container → SetChange → m.Container × Bool
  unfolding set_key add_insert
  change_set self (set key is_nil) = if is_nil then (m.erase self key, false) else set_key self key
  change_set self (add value) = (add_insert self value, false)
  change_set self (insert key value) = (add_insert self value, false)
  change_set self (erase key) = (m.erase self key, false)
  change_set self clear = (m.clear self, false)

  -- The container after some changes, and which of them ended with an error.
  unfoldable pub change_sets : m.Container → List SetChange → m.Container × List Bool
  unfolding change_set
  change_sets self [] = (self, [])
  change_sets self (c ∷ cs) =
      let (self', failed) = change_set self c in
      let (last, rest) = change_sets self' cs in (last, failed ∷ rest)

-- The same for a set as it is thought of: a key is in it or not, and only adding a key by `set` fails,
-- where the key is in it.
abbrev pub Keys : Type 0
Keys = ℕ → Bool

abbrev pub keys_change : Keys → SetChange → Keys
keys_change t (set k is_nil) j = if k == j then (if is_nil then false else true) else t j
keys_change t (add v) j = v == j || t j
keys_change t (insert k v) j = v == j || t j
keys_change t (erase k) j = if k == j then false else t j
keys_change t clear j = false

abbrev pub change_fails : Keys → SetChange → Bool
change_fails t (set k is_nil) = if is_nil then false else t k
change_fails t _ = false

abbrev pub keys_changes : Keys → List SetChange → Keys × List Bool
keys_changes t [] = (t, [])
keys_changes t (c ∷ cs) =
    let (last, rest) = keys_changes (keys_change t c) cs in (last, change_fails t c ∷ rest)

module _ (m : StdSet) (laws : IsStdSet m) where
  change_set-has :
      (self : m.Container) (c : SetChange) (j : ℕ)
      → m.has (change_set m self c).0 j ≡ keys_change (m.has self) c j
  unfolding change_set
  change_set-has self (set k true) j = laws.has-erase self k j
  change_set-has self (set k false) j = ground (arith, laws.has-insert self k j)
  change_set-has self (add v) j = laws.has-insert self v j
  change_set-has self (insert k v) j = laws.has-insert self v j
  change_set-has self (erase k) j = laws.has-erase self k j
  change_set-has self clear j = laws.has-clear self j

  change_set-fails :
      (self : m.Container) (c : SetChange) → (change_set m self c).1 ≡ change_fails (m.has self) c
  unfolding change_set
  change_set-fails self (set k true) = refl
  change_set-fails self (set k false) = ground arith
  change_set-fails self (add v) = refl
  change_set-fails self (insert k v) = refl
  change_set-fails self (erase k) = refl
  change_set-fails self clear = refl

  changes_lem :
      (cs : List SetChange) (self : m.Container) (t : Keys)
      → m.has self ≡ t
      → (m.has (change_sets m self cs).0 ≡ (keys_changes t cs).0)
        × ((change_sets m self cs).1 ≡ (keys_changes t cs).1)
  unfolding change_sets
  changes_lem [] self t h = (h, refl)
  changes_lem (c ∷ cs) self t h =
      let next : m.has (change_set m self c).0 ≡ keys_change t c =
        fun_ext (change_set-has self c) ∙ ap (λ (u : Keys). keys_change u c) h in
      let (last, rest) = changes_lem cs (change_set m self c).0 (keys_change t c) next in
      let first : (change_set m self c).1 ≡ change_fails t c =
        change_set-fails self c ∙ ap (λ (u : Keys). change_fails u c) h in
      (last, cc (first, rest))

  -- The key that is found by comparison is the key.
  get_comparative_lem :
      (k : ℕ) (ks : List ℕ) → get_comparative m k ks ≡ (if member k ks then some k else none)
  unfolding get_comparative
  get_comparative_lem k [] = refl
  get_comparative_lem k (r ∷ rest) = elim (Bool-cases (r == k)) [
    | inl e ↦ let same : r ≡ k = ground arith in ground (arith, same)
    | inr e ↦ ground (arith, get_comparative_lem k rest)
  ]

  -- After any changes of a set, `get` gives each key that is in it and nil for the others: the keys that
  -- it began with, as `set` of a value, `add` and `insert` add keys, and `set` of nil, `erase` and `clear`
  -- remove them. `insert` adds its value, not its key. The changes that fail are the `set`s of a value for
  -- a key that is in the set already.
  pub get_key-changes :
      (self : m.Container) (cs : List SetChange) (j : ℕ)
      → (get_key m (change_sets m self cs).0 j
          ≡ (if (keys_changes (m.has self) cs).0 j then some j else none))
        × ((change_sets m self cs).1 ≡ (keys_changes (m.has self) cs).1)
  unfolding get_key
  get_key-changes self cs j =
      let (last, rest) = changes_lem cs self (m.has self) refl in
      let c = (change_sets m self cs).0 in
      (
        get_comparative_lem j (m.keys c)
            ∙ ap (λ (b : Bool). if b then some j else none)
                (laws.keys-has c j ∙ ap (λ (u : Keys). u j) last),
        rest,
      )

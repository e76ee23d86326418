-- ===== src/Sequences/Access.antt =====
-- Reading a sequence: by random access, and with an iterator that can only go on.
use sol.Base.{
  ℕ, zero, suc, Bool, true, false, if◌then◌else◌, leb, Option, none, some, List, [], ◌∷◌, length,
  get_elem?,
}

-- An index that Lua passes.
pub data ℤ : Type 0 where
  pos negsuc : ℕ → ℤ

-- `pos += index_adjustment`, which is -1, and the test for `pos < 0`.
unfoldable pub adjust : ℤ → Option ℕ
adjust (pos zero) = none
adjust (pos (suc n)) = some n
adjust (negsuc n) = none

module _ {A : Type 0} where
  -- A result `none` is the nil that is pushed.
  unfoldable pub at_random : List A → Option ℕ → Option A
  at_random self none = none
  at_random self (some n) = if leb (length self) n then none else get_elem? self n

  -- The iterator is what is left of the sequence from it on.
  unfoldable pub walk : ℕ → List A → Option A
  walk n [] = none
  walk zero (x ∷ rest) = some x
  walk (suc n) (x ∷ rest) = walk n rest

  unfoldable pub at_input : List A → Option ℕ → Option A
  at_input self none = none
  at_input self (some n) = walk n self

  unfoldable pub get_random : List A → ℤ → Option A
  get_random self key = at_random self (adjust key)

  unfoldable pub get_input : List A → ℤ → Option A
  get_input self key = at_input self (adjust key)

  unfoldable pub size : List A → ℕ
  size self = length self

  unfoldable pub is_empty : List A → Bool
  is_empty [] = true
  is_empty (x ∷ xs) = false

  -- One step of `pairs`: the key before, and what is left of the sequence from the iterator on. The
  -- result `none` is the nil that ends the loop.
  unfoldable pub next : ℕ → List A → Option (ℕ × A × List A)
  next k [] = none
  next k (x ∷ rest) = some (suc k, x, rest)

  -- The loop over `pairs`, with fuel: the keys and values that it visits.
  unfoldable pub pairs_from : ℕ → ℕ → List A → Option (List (ℕ × A))
  pairs_from zero k self = none
  pairs_from (suc fuel) k self = elim (next k self) [
    | none ↦ some []
    | some (k', x, rest) ↦ elim (pairs_from fuel k' rest) [
      | none ↦ none
      | some visited ↦ some ((k', x) ∷ visited)
    ]
  ]

  unfoldable pub pairs : ℕ → List A → Option (List (ℕ × A))
  pairs fuel self = pairs_from fuel 0 self

-- ===== src/Sequences/Change.antt =====
-- Writing to a sequence: `set`, `insert`, `erase` and `add`. Moving an iterator out of the sequence has
-- no defined behaviour in C++: the result `undefined`.
use sol.Base.{ℕ, zero, suc, ◌==◌, if◌then◌else◌, ltb, List, [], ◌∷◌, ◌++◌, length}
use sol.Sequences.Access.{ℤ, pos, negsuc}

pub data Outcome (A : Type 0) : Type 0 where
  changed : List A → Outcome A
  too_small too_big undefined : Outcome A

module _ {A : Type 0} where
  unfoldable pub add : List A → A → List A
  add self value = self ++ value ∷ []

  -- `*it = value` at a position of the sequence.
  unfoldable pub write : List A → ℕ → A → List A
  write [] n value = []
  write (x ∷ xs) zero value = value ∷ xs
  write (x ∷ xs) (suc n) value = x ∷ write xs n value

  -- `set` by random access, from `key += index_adjustment` on.
  unfoldable pub set_adjusted : List A → ℕ → A → Outcome A
  set_adjusted self key value =
      if key == length self
      then changed (add self value)
      else if ltb (length self) key
      then too_big
      else changed (write self key value)

  unfoldable pub set_random : List A → ℤ → A → Outcome A
  set_random self (pos zero) value = too_small
  set_random self (pos (suc n)) value = set_adjusted self n value
  set_random self (negsuc n) value = too_small

  unfoldable pub prepend : A → Outcome A → Outcome A
  prepend x (changed xs) = changed (x ∷ xs)
  prepend x r = r

  -- The loop of `set` with an iterator that can only go on, and what follows it, for a key that is not
  -- negative: what has been passed stays in front.
  unfoldable pub set_walk : ℕ → List A → A → Outcome A
  set_walk zero [] value = changed (value ∷ [])
  set_walk (suc key) [] value = too_big
  set_walk zero (x ∷ rest) value = changed (value ∷ rest)
  set_walk (suc key) (x ∷ rest) value = prepend x (set_walk key rest value)

  -- For a negative key the loop does nothing, and an empty sequence is out of bounds.
  unfoldable pub set_negative : List A → A → Outcome A
  set_negative [] value = too_big
  set_negative (x ∷ rest) value = changed (value ∷ rest)

  unfoldable pub set_input : List A → ℤ → A → Outcome A
  set_input self (pos zero) value = set_negative self value
  set_input self (pos (suc n)) value = set_walk n self value
  set_input self (negsuc n) value = set_negative self value

  -- `self.insert(it, value)` behind `std::advance(it, key)`.
  unfoldable pub insert_at : ℕ → List A → A → Outcome A
  insert_at zero xs value = changed (value ∷ xs)
  insert_at (suc n) [] value = undefined
  insert_at (suc n) (x ∷ xs) value = prepend x (insert_at n xs value)

  unfoldable pub insert : List A → ℤ → A → Outcome A
  insert self (pos zero) value = undefined
  insert self (pos (suc n)) value = insert_at n self value
  insert self (negsuc n) value = undefined

  -- `self.erase(it)` behind `std::advance(it, key)`.
  unfoldable pub erase_at : ℕ → List A → Outcome A
  erase_at n [] = undefined
  erase_at zero (x ∷ xs) = changed xs
  erase_at (suc n) (x ∷ xs) = prepend x (erase_at n xs)

  unfoldable pub erase : List A → ℤ → Outcome A
  erase self (pos zero) = undefined
  erase self (pos (suc n)) = erase_at n self
  erase self (negsuc n) = undefined

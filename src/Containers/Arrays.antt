-- ===== src/Containers/Arrays.antt =====
-- C arrays, whose size `std::extent<T>::value` is fixed.
use sol.Base.{
  ℕ, zero, suc, ◌+◌, ◌==◌, ◌≡◌, refl, ap, arith, Bool, not, if◌then◌else◌, ltb, leb, Option, none,
  some, List, [], ◌∷◌, length, length-append, get_elem?, Bool-cases, inl, inr,
}
use sol.Sequences.Access.{ℤ, pos, negsuc, adjust, at_random, get_random, is_empty}
use sol.Sequences.Change.{
  Outcome, changed, too_small, too_big, add, write, set_adjusted, set_random,
}
use sol.Sequences.Search
use sol.Sequences.Search.{find_from, found_index}

module _ {A : Type 0} where
  unfoldable pub array_get : List A → ℤ → Option A
  unfolding adjust
  array_get self key = elim (adjust key) [
    | none ↦ none
    | some idx ↦ if leb (length self) idx then none else get_elem? self idx
  ]

  unfoldable pub array_set : List A → ℤ → A → Outcome A
  unfolding adjust write
  array_set self key value = elim (adjust key) [
    | none ↦ too_small
    | some idx ↦ if leb (length self) idx then too_big else changed (write self idx value)
  ]

  -- The loop of `find`, from an index on, and the index that is pushed.
  unfoldable pub array_find_from : (A → A → Bool) → List A → A → ℕ → Option ℕ
  array_find_from equal [] value idx = none
  array_find_from equal (v ∷ rest) value idx =
      let later = array_find_from equal rest value (idx + 1) in
      if equal v value then some (idx + 1) else later

  unfoldable pub array_find : (A → A → Bool) → List A → A → Option ℕ
  unfolding array_find_from
  array_find equal self value = array_find_from equal self value 0

  unfoldable pub array_empty : List A → Bool
  array_empty self = ltb 0 (length self)

  -- A change that keeps the size is made, and any other is out of bounds.
  abbrev pub fixed_size : ℕ → Outcome A → Outcome A
  fixed_size n (changed xs) = if length xs == n then changed xs else too_big
  fixed_size n r = r

  length-write : (xs : List A) (n : ℕ) (v : A) → length (write xs n v) ≡ length xs
  unfolding write
  length-write [] n v = refl
  length-write (x ∷ xs) zero v = refl
  length-write (x ∷ xs) (suc n) v = ap suc (length-write xs n v)

  array_set_lem :
      (self : List A) (key : ℤ) (value : A)
      → array_set self key value ≡ fixed_size (length self) (set_random self key value)
  unfolding array_set set_random set_adjusted adjust add
  array_set_lem self (pos zero) value = refl
  array_set_lem self (pos (suc n)) value =
      ground (arith, length-write self n value, length-append self (value ∷ []))
  array_set_lem self (negsuc n) value = refl

  array_find_lem :
      (equal : A → A → Bool) (self : List A) (value : A) (idx : ℕ)
      → ((x : A) → equal x value ≡ equal value x)
      → array_find_from equal self value idx ≡ found_index equal (find_from equal self value idx)
  unfolding array_find_from find_from found_index
  array_find_lem equal [] value idx h = refl
  array_find_lem equal (v ∷ rest) value idx h =
      let next : suc idx ≡ idx + 1 = omega arith in
      let later = array_find_lem equal rest value (idx + 1) h in
      rw (next, h v) (elim (Bool-cases (equal value v)) [ inl e ↦ rw e refl | inr e ↦ rw e later ])

  array_get_lem : (self : List A) (key : ℤ) → array_get self key ≡ get_random self key
  unfolding array_get get_random at_random adjust
  array_get_lem self (pos zero) = refl
  array_get_lem self (pos (suc n)) = refl
  array_get_lem self (negsuc n) = refl

  array_empty_lem : (self : List A) → array_empty self ≡ not (is_empty self)
  unfolding array_empty is_empty
  array_empty_lem [] = refl
  array_empty_lem (x ∷ self) = ground arith

  -- An array is read and searched as a sequence that has the same values, if values compare the same both
  -- ways, and written as one, but for the index behind the last value, which is out of bounds and not
  -- appended. `empty` says the opposite of what it says of sequences.
  pub array-sequence :
      (equal : A → A → Bool) (self : List A) (key : ℤ) (value : A)
      → ((x : A) → equal x value ≡ equal value x)
      → (array_get self key ≡ get_random self key)
        × (array_set self key value ≡ fixed_size (length self) (set_random self key value))
        × (array_find equal self value ≡ Search.find equal self value)
        × (array_empty self ≡ not (is_empty self))
  unfolding array_find Search.find
  array-sequence equal self key value h = (
    array_get_lem self key,
    array_set_lem self key value,
    array_find_lem equal self value 0 h,
    array_empty_lem self,
  )

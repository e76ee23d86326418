-- ===== src/Sequences/Agreement.antt =====
-- The two ways to go through a sequence agree.
use sol.Base.{
  ℕ, zero, suc, ◌≡◌, refl, sym, ap, ◌∙◌, arith, true, false, ◌==◌, ltb, leb, some, List, [], ◌∷◌,
  length, get_elem?, Bool-cases, inl, inr,
}
use sol.Sequences.Access.{ℤ, pos, negsuc, adjust, at_random, walk, at_input, get_random, get_input}
use sol.Sequences.Change.{add, write, set_adjusted, set_random, prepend, set_walk, set_input}

module _ {A : Type 0} where
  pub at_random_lem : (self : List A) (n : ℕ) → at_random self (some n) ≡ get_elem? self n
  unfolding at_random
  at_random_lem [] n = let e : leb 0 n ≡ true = ground arith in rw e refl
  at_random_lem (x ∷ xs) zero = let e : leb (suc (length xs)) 0 ≡ false = ground arith in rw e refl
  at_random_lem (x ∷ xs) (suc n) =
      let e : leb (suc (length xs)) (suc n) ≡ leb (length xs) n = ground arith in
      rw e (at_random_lem xs n)

  walk_lem : (n : ℕ) (self : List A) → walk n self ≡ get_elem? self n
  unfolding walk
  walk_lem n [] = refl
  walk_lem zero (x ∷ xs) = refl
  walk_lem (suc n) (x ∷ xs) = walk_lem n xs

  -- For every index, reading by random access and reading with an iterator give the same, a value or
  -- nil.
  pub get_input-get_random : (self : List A) (key : ℤ) → get_input self key ≡ get_random self key
  unfolding get_input get_random adjust at_input
  get_input-get_random self (pos zero) = unfold at_random in refl
  get_input-get_random self (pos (suc n)) = walk_lem n self ∙ sym (at_random_lem self n)
  get_input-get_random self (negsuc n) = unfold at_random in refl

  prepend-set_adjusted :
      (x : A) (xs : List A) (n : ℕ) (value : A)
      → prepend x (set_adjusted xs n value) ≡ set_adjusted (x ∷ xs) (suc n) value
  unfolding set_adjusted add write prepend
  prepend-set_adjusted x xs n value =
      let same : (suc n == suc (length xs)) ≡ (n == length xs) = ground arith in
      let less : ltb (suc (length xs)) (suc n) ≡ ltb (length xs) n = ground arith in
      elim (Bool-cases (n == length xs)) [
        | inl e ↦ rw (same, e) refl
        | inr e ↦ elim (Bool-cases (ltb (length xs) n)) [
          | inl l ↦ rw (same, less, e, l) refl
          | inr l ↦ rw (same, less, e, l) refl
        ]
      ]

  set_walk_lem :
      (n : ℕ) (self : List A) (value : A) → set_walk n self value ≡ set_adjusted self n value
  unfolding set_walk
  set_walk_lem zero [] value = unfold set_adjusted add in refl
  set_walk_lem (suc n) [] value =
      let behind : (suc n == 0) ≡ false = ground arith in
      let less : ltb 0 (suc n) ≡ true = ground arith in
      unfold set_adjusted in rw (behind, less) refl
  set_walk_lem zero (x ∷ xs) value =
      let inside : (0 == suc (length xs)) ≡ false = ground arith in
      let not_less : ltb (suc (length xs)) 0 ≡ false = ground arith in
      unfold set_adjusted write in rw (inside, not_less) refl
  set_walk_lem (suc n) (x ∷ xs) value =
      ap (prepend x) (set_walk_lem n xs value) ∙ prepend-set_adjusted x xs n value

  -- For every index from 1 on, `set` with an iterator and `set` by random access do the same: they write
  -- to the element, append behind the last one, or report that the index is too big.
  pub set_input-set_random :
      (self : List A) (key : ℤ) (value : A) (n : ℕ)
      → key ≡ pos (suc n)
      → set_input self key value ≡ set_random self key value
  unfolding set_input set_random
  set_input-set_random self key value n e = rw e (set_walk_lem n self value)

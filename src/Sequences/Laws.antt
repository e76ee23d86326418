-- ===== src/Sequences/Laws.antt =====
-- What is written is read again, `erase` undoes `insert`, `find` finds the first, `pairs` visits all.
use sol.Base.{
  ℕ, zero, suc, ◌+◌, ◌<◌, ◌≡◌, refl, sym, ap, ◌∙◌, arith, Bool, true, false, ◌==◌, if◌then◌else◌,
  ltb, Option, none, some, List, [], ◌∷◌, ◌++◌, length, get_elem?, Bool-cases, Option-cases, inl,
  inr,
}
use sol.Sequences.Access.{ℤ, pos, negsuc, adjust, get_random, next, pairs_from, pairs}
use sol.Sequences.Change.{
  Outcome, changed, too_small, too_big, undefined, add, write, set_adjusted, set_random, prepend,
  insert_at, insert, erase_at, erase,
}
use sol.Sequences.Search.{find_from, found_index, find}
use sol.Sequences.Agreement.{at_random_lem}

module _ {A : Type 0} where
  abbrev contents : Outcome A → List A → List A
  contents (changed xs) other = xs
  contents _ other = other

  get_random_lem : (self : List A) (n : ℕ) → get_random self (pos (suc n)) ≡ get_elem? self n
  unfolding get_random adjust
  get_random_lem self n = at_random_lem self n

  -- The sequence behind `prepend`.
  abbrev Prepended : A → Outcome A → List A → Type 0
  Prepended x o ys = (zs : List A) × (o ≡ changed zs) × (ys ≡ x ∷ zs)

  prepend-changed :
      (x : A) (o : Outcome A) (ys : List A) → prepend x o ≡ changed ys → Prepended x o ys
  unfolding prepend
  prepend-changed x (changed zs) ys e = (zs, refl, sym (ap (λ o. contents o []) e))
  prepend-changed x too_small ys e = cc
  prepend-changed x too_big ys e = cc
  prepend-changed x undefined ys e = cc

  get_elem?-add :
      (xs : List A) (v : A) (m : ℕ)
      → get_elem? (xs ++ v ∷ []) m ≡ (if m == length xs then some v else get_elem? xs m)
  get_elem?-add [] v zero = refl
  get_elem?-add [] v (suc m) = let e : (suc m == 0) ≡ false = ground arith in rw e refl
  get_elem?-add (x ∷ xs) v zero = let e : (0 == suc (length xs)) ≡ false = ground arith in rw e refl
  get_elem?-add (x ∷ xs) v (suc m) =
      let e : (suc m == suc (length xs)) ≡ (m == length xs) = ground arith in
      rw e (get_elem?-add xs v m)

  get_elem?-write :
      (xs : List A) (n : ℕ) (v : A) (m : ℕ)
      → n < length xs
      → get_elem? (write xs n v) m ≡ (if m == n then some v else get_elem? xs m)
  unfolding write
  get_elem?-write [] n v m l = ground arith
  get_elem?-write (x ∷ xs) zero v zero l = refl
  get_elem?-write (x ∷ xs) zero v (suc m) l =
      let e : (suc m == 0) ≡ false = ground arith in rw e refl
  get_elem?-write (x ∷ xs) (suc n) v zero l =
      let e : (0 == suc n) ≡ false = ground arith in rw e refl
  get_elem?-write (x ∷ xs) (suc n) v (suc m) l =
      let e : (suc m == suc n) ≡ (m == n) = ground arith in
      rw e (get_elem?-write xs n v m (ground arith))

  get_elem?-set_adjusted :
      (self ys : List A) (n m : ℕ) (v : A)
      → set_adjusted self n v ≡ changed ys
      → get_elem? ys m ≡ (if m == n then some v else get_elem? self m)
  unfolding set_adjusted add
  get_elem?-set_adjusted self ys n m v e = elim (Bool-cases (n == length self)) [
    | inl a ↦
        let same : n ≡ length self = ground arith in
        let end : ys ≡ self ++ v ∷ [] = sym (ap (λ o. contents o []) (rw a at e)) in
        rw (end, same) (get_elem?-add self v m)
    | inr a ↦ elim (Bool-cases (ltb (length self) n)) [
      | inl b ↦ let bad : too_big ≡ changed ys = rw (a, b) at e in cc
      | inr b ↦
          let written : ys ≡ write self n v = sym (ap (λ o. contents o []) (rw (a, b) at e)) in
          rw written (get_elem?-write self n v m (ground arith))
    ]
  ]

  -- After a `set` that succeeds, the index reads the new value, and every other index from 1 on what it
  -- read before.
  pub get_random-set_random :
      (self ys : List A) (n m : ℕ) (v : A)
      → set_random self (pos (suc n)) v ≡ changed ys
      → get_random ys (pos (suc m)) ≡ (if m == n then some v else get_random self (pos (suc m)))
  unfolding set_random
  get_random-set_random self ys n m v e =
      rw (get_random_lem ys m, get_random_lem self m) (get_elem?-set_adjusted self ys n m v e)

  inserted :
      (n : ℕ) (self ys : List A) (v : A)
      → insert_at n self v ≡ changed ys
      → (erase_at n ys ≡ changed self) × (get_elem? ys n ≡ some v)
  unfolding insert_at erase_at prepend
  inserted zero self ys v e =
      let made : ys ≡ v ∷ self = sym (ap (λ o. contents o []) e) in rw made (refl, refl)
  inserted (suc n) [] ys v e = cc
  inserted (suc n) (x ∷ xs) ys v e =
      let (zs, inner, made) = prepend-changed x (insert_at n xs v) ys e in
      let (erased, there) = inserted n xs zs v inner in rw made (ap (prepend x) erased, there)

  -- After an `insert` that is defined, the index reads the new value, and `erase` at the same index
  -- gives the sequence from before.
  pub erase-insert :
      (self ys : List A) (key : ℤ) (v : A)
      → insert self key v ≡ changed ys
      → (erase ys key ≡ changed self) × (get_random ys key ≡ some v)
  unfolding insert erase
  erase-insert self ys (pos zero) v e = cc
  erase-insert self ys (pos (suc n)) v e = rw (get_random_lem ys n) (inserted n self ys v e)
  erase-insert self ys (negsuc n) v e = cc

  -- What `pairs` should visit.
  numbered : ℕ → List A → List (ℕ × A)
  numbered k [] = []
  numbered k (x ∷ xs) = (suc k, x) ∷ numbered (suc k) xs

  pairs_from_lem :
      (k : ℕ) (self : List A) → pairs_from (suc (length self)) k self ≡ some (numbered k self)
  unfolding pairs_from next numbered
  pairs_from_lem k [] = refl
  pairs_from_lem k (x ∷ xs) =
      ap (λ o. elim o [ none ↦ none | some visited ↦ some ((suc k, x) ∷ visited) ])
        (pairs_from_lem (suc k) xs)

  length-numbered : (k : ℕ) (self : List A) → length (numbered k self) ≡ length self
  unfolding numbered
  length-numbered k [] = refl
  length-numbered k (x ∷ xs) = ap suc (length-numbered (suc k) xs)

  get_elem?-numbered :
      (k n : ℕ) (self : List A) (p : ℕ × A)
      → get_elem? (numbered k self) n ≡ some p
      → (p.0 ≡ k + suc n) × (get_elem? self n ≡ some p.1)
  unfolding numbered
  get_elem?-numbered k n [] p e = cc
  get_elem?-numbered k zero (x ∷ xs) p e =
      let entry : (suc k, x) ≡ p =
        ap (λ (o : Option (ℕ × A)). elim o [ none ↦ p | some r ↦ r ]) e in
      let one : suc k ≡ k + 1 = ground arith in
      (ap (λ (r : ℕ × A). r.0) (sym entry) ∙ one, ap (λ (r : ℕ × A). some r.1) entry)
  get_elem?-numbered k (suc n) (x ∷ xs) p e =
      let (key, value) = get_elem?-numbered (suc k) n xs p e in (ground arith, value)

  -- The loop over `pairs` ends after as many rounds as the sequence has elements, and round number n,
  -- counted from 0, gives the key n + 1 and the value that this index reads.
  pub pairs-visits :
      (self : List A)
      → (visited : List (ℕ × A)) × (pairs (suc (length self)) self ≡ some visited)
        × (length visited ≡ length self)
        × ((n : ℕ) (p : ℕ × A)
            → get_elem? visited n ≡ some p
            → (p.0 ≡ suc n) × (get_random self (pos p.0) ≡ some p.1))
  unfolding pairs
  pairs-visits self = (
    numbered 0 self,
    pairs_from_lem 0 self,
    length-numbered 0 self,
    λ n p e.
        let (key, value) = get_elem?-numbered 0 n self p e in
        let place : p.0 ≡ suc n = ground arith in (place, rw place (get_random_lem self n ∙ value)),
  )

module _ {A : Type 0} (equal : A → A → Bool) where
  -- The place `n` is the first whose element equals `v`.
  abbrev pub IsFirst : List A → A → ℕ → Type 0
  IsFirst self v n =
      ((x : A) × (get_elem? self n ≡ some x) × (equal v x ≡ true))
      × ((m : ℕ) (y : A) → m < n → get_elem? self m ≡ some y → equal v y ≡ false)

  first_of_more :
      (x : A) (xs : List A) (v : A) (n : ℕ)
      → equal v x ≡ false
      → ((m : ℕ) (y : A) → m < n → get_elem? xs m ≡ some y → equal v y ≡ false)
      → (m : ℕ) (y : A) → m < suc n
      → get_elem? (x ∷ xs) m ≡ some y
      → equal v y ≡ false
  first_of_more x xs v n f before zero y l h =
      let same : x ≡ y = ap (λ (o : Option A). elim o [ none ↦ x | some z ↦ z ]) h in
      rw (sym same) f
  first_of_more x xs v n f before (suc m) y l h = before m y (ground arith) h

  not_found_from :
      (self : List A) (v : A) (i : ℕ)
      → find_from equal self v i ≡ none
      → (m : ℕ) (y : A) → get_elem? self m ≡ some y
      → equal v y ≡ false
  unfolding find_from
  not_found_from [] v i e m y h = cc
  not_found_from (x ∷ xs) v i e m y h = elim (Bool-cases (equal v x)) [
    | inl t ↦ let bad : some i ≡ none = rw t at e in cc
    | inr f ↦
        let later : find_from equal xs v (suc i) ≡ none = rw f at e in
        first_of_more x xs v (suc m) f (λ m' y' l h'. not_found_from xs v (suc i) later m' y' h') m
          y (ground arith) h
  ]

  found_from :
      (self : List A) (v : A) (i j : ℕ)
      → find_from equal self v i ≡ some j
      → (n : ℕ) × (j ≡ i + n) × IsFirst self v n
  unfolding find_from
  found_from [] v i j e = cc
  found_from (x ∷ xs) v i j e = elim (Bool-cases (equal v x)) [
    | inl t ↦
        let same : i ≡ j = ap (λ (o : Option ℕ). elim o [ none ↦ i | some k ↦ k ]) (rw t at e) in
        (0, ground arith, ((x, refl, t), λ m y l h. ground arith))
    | inr f ↦
        let later : find_from equal xs v (suc i) ≡ some j = rw f at e in
        let (n, place, first) = found_from xs v (suc i) j later in
        (suc n, ground arith, (first.0, first_of_more x xs v n f first.1))
  ]

  found :
      (self : List A) (v : A) (key : ℕ)
      → find equal self v ≡ some key
      → (n : ℕ) × (key ≡ suc n) × IsFirst self v n × (get_random self (pos key) ≡ get_elem? self n)
  unfolding find found_index
  found self v key e = elim (Option-cases (find_from equal self v 0)) [
    | inl o ↦ let bad : none ≡ some key = rw o at e in cc
    | inr (j, o) ↦
        let (n, place, first) = found_from self v 0 j o in
        let index : j + 1 ≡ key =
          ap (λ (q : Option ℕ). elim q [ none ↦ key | some r ↦ r ]) (rw o at e) in
        let key_lem : key ≡ suc n = ground arith in
        (n, key_lem, first, rw key_lem (get_random_lem self n))
  ]

  not_found :
      (self : List A) (v : A)
      → find equal self v ≡ none
      → (m : ℕ) (y : A) → get_random self (pos (suc m)) ≡ some y
      → equal v y ≡ false
  unfolding find found_index
  not_found self v e m y h = elim (Option-cases (find_from equal self v 0)) [
    | inl o ↦ not_found_from self v 0 o m y (sym (get_random_lem self m) ∙ h)
    | inr (j, o) ↦ let bad : some (j + 1) ≡ none = rw o at e in cc
  ]

  -- `find` gives the index of the first element that equals the value, where this index reads that
  -- element, and nil only if no element equals the value.
  pub find-IsFirst :
      (self : List A) (v : A)
      → ((key : ℕ)
          → find equal self v ≡ some key
          → (n : ℕ) × (key ≡ suc n)
            × IsFirst self v n
            × (get_random self (pos key) ≡ get_elem? self n))
        × (find equal self v ≡ none
            → (m : ℕ) (y : A) → get_random self (pos (suc m)) ≡ some y
            → equal v y ≡ false)
  find-IsFirst self v = (found self v, not_found self v)

-- ===== src/Sequences/Examples.antt =====
-- Three elements, read, written, searched and visited.
use sol.Base.{ℕ, suc, ◌≡◌, refl, false, ◌==◌, none, some, List, [], ◌∷◌, get_elem?}
use sol.Sequences.Access.{pos, get_random}
use sol.Sequences.Change.{
  changed, set_random, set_input, insert, erase, too_small, set_adjusted, write, insert_at, prepend,
  set_negative,
}
use sol.Sequences.Search.{find}
use sol.Sequences.Agreement.{set_input-set_random}
use sol.Sequences.Laws.{erase-insert, find-IsFirst, IsFirst}

abbrev three : List ℕ
three = 4 ∷ 5 ∷ 6 ∷ []

abbrev four : List ℕ
four = 4 ∷ 9 ∷ 5 ∷ 6 ∷ []

abbrev written : List ℕ
written = 4 ∷ 9 ∷ 6 ∷ []

three-set_random : set_random three (pos 2) 9 ≡ changed written
unfolding set_random set_adjusted write
three-set_random = refl

three-insert : insert three (pos 2) 9 ≡ changed four
unfolding insert insert_at prepend
three-insert = refl

-- With an index that is too small, only random access reports it.
zero-set_random : set_random three (pos 0) 9 ≡ too_small
unfolding set_random
zero-set_random = refl

zero-set_input : set_input three (pos 0) 9 ≡ changed (9 ∷ 5 ∷ 6 ∷ [])
unfolding set_input set_negative
zero-set_input = refl

set_input-set_random_example : set_input three (pos 4) 9 ≡ set_random three (pos 4) 9
set_input-set_random_example = set_input-set_random three (pos 4) 9 3 refl

erase-insert_example : (erase four (pos 2) ≡ changed three) × (get_random four (pos 2) ≡ some 9)
erase-insert_example = erase-insert three four (pos 2) 9 three-insert

find-IsFirst_example :
    ((key : ℕ)
      → find (λ x y. x == y) three 5 ≡ some key
      → (n : ℕ) × (key ≡ suc n)
        × IsFirst (λ x y. x == y) three 5 n
        × (get_random three (pos key) ≡ get_elem? three n))
    × (find (λ x y. x == y) three 5 ≡ none
        → (m : ℕ) (y : ℕ) → get_random three (pos (suc m)) ≡ some y
        → (5 == y) ≡ false)
find-IsFirst_example = find-IsFirst (λ x y. x == y) three 5

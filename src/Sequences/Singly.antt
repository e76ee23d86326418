-- ===== src/Sequences/Singly.antt =====
-- The singly linked list does what other sequences do.
use sol.Base.{ℕ, zero, suc, ◌≡◌, refl, ap, List, [], ◌∷◌}
use sol.Sequences.Access.{pos}
use sol.Sequences.Change.{changed, prepend, add, insert_at, insert, erase_at, erase}
use sol.Sequences.Linked.{
  before, insert_loop, insert_after, erase_loop, erase_after, add_insert_after,
}

module _ {A : Type 0} where
  insert_loop_lem :
      (n : ℕ) (self : List A) (value : A)
      → insert_loop n (before self) value ≡ insert_at n self value
  unfolding insert_loop insert_at
  insert_loop_lem zero self value = refl
  insert_loop_lem (suc n) [] value = refl
  insert_loop_lem (suc n) (x ∷ rest) value = ap (prepend x) (insert_loop_lem n rest value)

  erase_loop_lem : (n : ℕ) (self : List A) → erase_loop n (before self) ≡ erase_at n self
  unfolding erase_loop erase_at
  erase_loop_lem zero [] = refl
  erase_loop_lem zero (x ∷ rest) = refl
  erase_loop_lem (suc n) [] = refl
  erase_loop_lem (suc n) (x ∷ rest) = ap (prepend x) (erase_loop_lem n rest)

  add_lem : (self : List A) (value : A) → add_insert_after self value ≡ changed (add self value)
  unfolding add_insert_after add prepend
  add_lem [] value = refl
  add_lem (x ∷ rest) value = ap (prepend x) (add_lem rest value)

  -- For every index from 1 on, `insert` and `erase` on a singly linked list do what they do on other
  -- sequences: they change the list at the index, or have no defined behaviour if it is too big. `add`
  -- appends the value on both.
  pub insert_after-insert :
      (self : List A) (n : ℕ) (value : A)
      → (insert_after self (pos (suc n)) value ≡ insert self (pos (suc n)) value)
        × (erase_after self (pos (suc n)) ≡ erase self (pos (suc n)))
        × (add_insert_after self value ≡ changed (add self value))
  unfolding insert_after insert erase_after erase
  insert_after-insert self n value =
      (insert_loop_lem n self value, erase_loop_lem n self, add_lem self value)

-- ===== src/Sequences/Linked.antt =====
-- `insert`, `erase` and `add` for `std::forward_list`, which can only change what follows an iterator.
use sol.Base.{ℕ, zero, suc, List, [], ◌∷◌}
use sol.Sequences.Access.{ℤ, pos, negsuc}
use sol.Sequences.Change.{Outcome, changed, too_big, undefined, prepend}

-- The iterator `backit`: before what follows it, or at the end. The iterator `it` is where that begins,
-- and moving it on from the end has no defined behaviour.
pub data Backit (A : Type 0) : Type 0 where
  before : List A → Backit A
  at_end : Backit A

module _ {A : Type 0} where
  -- The loop of `insert_after_has` and what follows it: what has been passed stays in front.
  unfoldable pub insert_loop : ℕ → Backit A → A → Outcome A
  insert_loop zero (before rest) value = changed (value ∷ rest)
  insert_loop zero at_end value = undefined
  insert_loop (suc key) at_end value = too_big
  insert_loop (suc key) (before []) value = undefined
  insert_loop (suc key) (before (x ∷ rest)) value = prepend x (insert_loop key (before rest) value)

  unfoldable pub insert_after : List A → ℤ → A → Outcome A
  insert_after self (pos zero) value = insert_loop zero (before self) value
  insert_after self (pos (suc n)) value = insert_loop n (before self) value
  insert_after self (negsuc n) value = insert_loop zero (before self) value

  -- The loop of `erase_after_has` and what follows it. There must be an element behind `backit`.
  unfoldable pub erase_loop : ℕ → Backit A → Outcome A
  erase_loop zero (before []) = undefined
  erase_loop zero (before (x ∷ rest)) = changed rest
  erase_loop zero at_end = undefined
  erase_loop (suc key) at_end = too_big
  erase_loop (suc key) (before []) = undefined
  erase_loop (suc key) (before (x ∷ rest)) = prepend x (erase_loop key (before rest))

  unfoldable pub erase_after : List A → ℤ → Outcome A
  erase_after self (pos zero) = erase_loop zero (before self)
  erase_after self (pos (suc n)) = erase_loop n (before self)
  erase_after self (negsuc n) = erase_loop zero (before self)

  -- The loop of `add_insert_after` goes on until `it` is at the end.
  unfoldable pub add_insert_after : List A → A → Outcome A
  add_insert_after [] value = changed (value ∷ [])
  add_insert_after (x ∷ rest) value = prepend x (add_insert_after rest value)

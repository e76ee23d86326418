-- ===== src/Traversal/Loops.antt =====
-- Loops over tables.
use sol.Base.{ℕ, zero, suc, ◌+◌, ◌<◌, ◌≡◌, refl, arith, some, List, [], ◌∷◌, map, length}
use sol.Calls.Stack.{LuaStack, IsLuaStack}
use sol.Traversal.Next.{LuaNext, IsLuaNext}
use sol.Traversal.Iterator.{
  TableIterator, next_pair, begin_table, end_table, next_pair_copy, loop_table,
}
use sol.Traversal.Steps.{AtEnd, Stepped, begin_lem, next_lem, end_keyed, end_table_ended}

module _ (lua : LuaStack) (tables : LuaNext lua) where
  open lua use {State, Value, stack}

  -- A loop that is left behind some steps.
  abbrev pub stop_behind : ℕ → TableIterator lua → State → State
  stop_behind zero it s = end_table lua tables it s
  stop_behind (suc n) it s = let (it', s') = next_pair lua tables it s in stop_behind n it' s'

module _ (lua : LuaStack) (laws : IsLuaStack lua) (tables : LuaNext lua)
    (order : IsLuaNext lua tables) (caller : List lua.Value) (t : lua.Value) where
  open lua use {State, Value, stack}

  abbrev Reached : ℕ → List (Value × Value) → TableIterator lua → State → Type 0
  Reached i entries it s = Stepped lua laws tables order caller t i entries it s

  next_pair_ended :
      (it : TableIterator lua) (s : State)
      → AtEnd lua laws tables order caller t it s
      → next_pair lua tables it s ≡ (it, s)
  unfolding next_pair
  next_pair_ended it s h = rw h.counted refl

  stop_lem :
      (n i : ℕ) (entries : List (Value × Value)) (it : TableIterator lua) (s : State)
      → Reached i entries it s
      → stack (stop_behind lua tables n it s) ≡ caller
  stop_lem zero i [] it s h = end_table_ended lua laws tables order caller t it s h
  stop_lem zero i ((k, v) ∷ rest) it s (h, q) =
      end_keyed lua laws tables order caller t it h.key s h.on_stack h.key_at h.table_at
  stop_lem (suc n) i [] it s h = rw (next_pair_ended it s h) (stop_lem n i [] it s h)
  stop_lem (suc n) i ((k, v) ∷ rest) it s (h, q) =
      stop_lem n (i + 1) rest (next_pair lua tables it s).0 (next_pair lua tables it s).1
        (next_lem lua laws tables order caller t i rest it s h)

  loop_lem :
      (fuel i : ℕ) (entries : List (Value × Value)) (it : TableIterator lua) (s : State)
      → length entries < fuel
      → Reached i entries it s
      → (s' : State) × (loop_table lua tables fuel it s ≡ some (map some entries, s'))
        × (stack s' ≡ caller)
  unfolding loop_table
  loop_lem zero i entries it s f h = absurd (omega arith)
  loop_lem (suc fuel) i [] it s f h = (
    end_table lua tables it s,
    rw h.counted refl,
    end_table_ended lua laws tables order caller t it s h,
  )
  loop_lem (suc fuel) i ((k, v) ∷ rest) it s f (h, q) =
      let (it', s') = next_pair lua tables it s in
      let (s'', visits, left) =
        loop_lem fuel (i + 1) rest it' s' (omega arith)
          (next_lem lua laws tables order caller t i rest it s h) in
      let counted = h.counted in (s'', ground (arith, counted, visits, q), left)

-- A loop over a table with some entries, in the order of `lua_next`, visits each of them once, in this
-- order, and leaves the stack as it was; so does a loop that is left behind any number of steps.
pub loop_table-visits :
    (lua : LuaStack)
    → IsLuaStack lua
    → (tables : LuaNext lua) → IsLuaNext lua tables
    → (t : lua.Value) (s : lua.State) (n : ℕ)
    → let (it, s1) = begin_table lua tables t s in
      let entries = tables.after t tables.nil in
      ((s' : lua.State) × (loop_table lua tables (suc (length entries)) it s1
          ≡ some (map some entries, s'))
        × (lua.stack s' ≡ lua.stack s))
      × (lua.stack (stop_behind lua tables n it s1) ≡ lua.stack s)
loop_table-visits lua laws tables order t s n =
    let caller = lua.stack s in
    let entries = tables.after t tables.nil in
    let begins = begin_lem lua laws tables order caller t entries s refl refl in
    let (it, s1) = begin_table lua tables t s in
    (
      loop_lem lua laws tables order caller t (suc (length entries)) 0 entries it s1 (omega arith)
          begins,
      stop_lem lua laws tables order caller t n 0 entries it s1 begins,
    )

-- The increment that returns a copy of the iterator takes the table and the key off the stack, when the
-- copy ends, although the iterator goes on: behind the first entry of a table with a second one, the
-- iterator is not at its end, and the stack is as it was before the loop.
pub next_pair_copy-Leaves :
    (lua : LuaStack)
    → IsLuaStack lua
    → (tables : LuaNext lua) → IsLuaNext lua tables
    → (t : lua.Value) (s : lua.State) (first second : lua.Value × lua.Value)
      (more : List (lua.Value × lua.Value))
    → tables.after t tables.nil ≡ first ∷ second ∷ more
    → let (it, s1) = begin_table lua tables t s in
      let (it', s2) = next_pair_copy lua tables it s1 in
      (it'.idx ≡ some 1) × (it'.kvp ≡ some second) × (lua.stack s2 ≡ lua.stack s)
unfolding next_pair_copy
next_pair_copy-Leaves lua laws tables order t s first second more e =
    let caller = lua.stack s in
    let (it, s1) = begin_table lua tables t s in
    let (h, _) = begin_lem lua laws tables order caller t (first ∷ second ∷ more) s refl e in
    let (h', q) = next_lem lua laws tables order caller t 0 (second ∷ more) it s1 h in
    let s2 = (next_pair lua tables it s1).1 in
    (
      h'.counted,
      q,
      end_keyed lua laws tables order caller t it h'.key s2 h'.on_stack h.key_at h.table_at,
    )

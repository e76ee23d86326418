-- ===== src/Traversal/Iterator.antt =====
-- `basic_table_iterator`. An index or a key's index that is -1 is `none`.
use sol.Base.{
  ℕ, zero, suc, ◌+◌, ◌-◌, Bool, true, false, Option, none, some, List, [], ◌∷◌, get_elem?,
}
use sol.Calls.Stack.{LuaStack, pos, remove}
use sol.Traversal.Next.{LuaNext}

pub record TableIterator (lua : LuaStack) : Type 0 where
  pub kvp : Option (lua.Value × lua.Value)
  pub tableidx : ℕ
  pub keyidx : Option ℕ
  pub idx : Option ℕ

module _ (lua : LuaStack) (tables : LuaNext lua) where
  open lua use {State, Value}

  -- The objects at the two highest positions of the stack.
  unfoldable pub read_pair : State → Option (Value × Value)
  read_pair s = elim (get_elem? (lua.stack s) (lua.gettop s - 2)) [
    | none ↦ none
    | some k ↦ elim (get_elem? (lua.stack s) (lua.gettop s - 1)) [
      | none ↦ none
      | some v ↦ some (k, v)
    ]
  ]

  -- `operator++`, behind the test for the end: what it does with what `lua_next` finds.
  unfoldable pub take_next : TableIterator lua → ℕ → Bool → State → TableIterator lua × State
  unfolding read_pair
  take_next it idx false s = (record it { keyidx = none; idx = none }, s)
  take_next it idx true s =
      let s' = lua.pop 1 s in
      (
        record {
          kvp = read_pair s;
          tableidx = it.tableidx;
          keyidx = some (lua.gettop s');
          idx = some (idx + 1);
        },
        s',
      )

  unfoldable pub advance : TableIterator lua → ℕ → State → TableIterator lua × State
  unfolding take_next
  advance it idx s = let (found, s') = tables.next it.tableidx s in take_next it idx found s'

  unfoldable pub next_pair : TableIterator lua → State → TableIterator lua × State
  unfolding advance
  next_pair it s = elim it.idx [ none ↦ (it, s) | some idx ↦ advance it idx s ]

  -- `--idx`, where the first step has not ended the loop.
  unfoldable pub step_back : TableIterator lua → TableIterator lua
  step_back it = elim it.idx [ none ↦ it | some idx ↦ record it { idx = some (idx - 1) } ]

  -- The constructor from a table.
  unfoldable pub begin_table : Value → State → TableIterator lua × State
  unfolding next_pair step_back
  begin_table t s =
      let s1 = lua.push t s in
      let it : TableIterator lua = record {
        kvp = none;
        tableidx = lua.gettop s1;
        keyidx = some 0;
        idx = some 0;
      } in
      let (it', s2) = next_pair it (lua.push tables.nil s1) in (step_back it', s2)

  -- The destructor, of an iterator with a valid table.
  unfoldable pub end_table : TableIterator lua → State → State
  end_table it s =
      let s1 : State = elim it.keyidx [ none ↦ s | some keyidx ↦ remove lua (pos keyidx) 1 s ] in
      remove lua (pos it.tableidx) 1 s1

  -- `operator++(int)`, and the end of the copy that it returns.
  unfoldable pub next_pair_copy : TableIterator lua → State → TableIterator lua × State
  unfolding next_pair end_table
  next_pair_copy it s = let (it', s1) = next_pair it s in (it', end_table it s1)

  -- The loop over a table whose body leaves the stack as it is: what it visits, with fuel.
  unfoldable pub loop_table :
      ℕ → TableIterator lua → State → Option (List (Option (Value × Value)) × State)
  unfolding next_pair end_table
  loop_table zero it s = none
  loop_table (suc fuel) it s = elim it.idx [
    | none ↦ some ([], end_table it s)
    | some _ ↦
        let (it', s') = next_pair it s in
        elim (loop_table fuel it' s') [
          | none ↦ none
          | some (visited, s'') ↦ some (it.kvp ∷ visited, s'')
        ]
  ]

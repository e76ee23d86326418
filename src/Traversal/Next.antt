-- ===== src/Traversal/Next.antt =====
-- What the iterators rely on of `lua_next`, beside Lua's stack.
use sol.Base.{ℕ, suc, ◌≡◌, Bool, true, false, List, [], ◌∷◌, ◌++◌, some, get_elem?}
use sol.Calls.Stack.{LuaStack}

-- `after t k` are the entries of a table behind a key, in the order of `lua_next`; behind nil, all of them.
pub record LuaNext (lua : LuaStack) : Type 0 where
  pub next : ℕ → lua.State → Bool × lua.State
  pub nil : lua.Value
  pub after : lua.Value → lua.Value → List (lua.Value × lua.Value)

-- `lua_next` pops a key, and pushes the next key and its value or, at the end, nothing.
pub record IsLuaNext (lua : LuaStack) (tables : LuaNext lua) : Type 0 where
  pub next_end :
      (below : List lua.Value) (t k : lua.Value) (i : ℕ) (s : lua.State)
      → lua.stack s ≡ below ++ k ∷ []
      → get_elem? below i ≡ some t
      → tables.after t k ≡ []
      → ((tables.next (suc i) s).0 ≡ false) × (lua.stack (tables.next (suc i) s).1 ≡ below)
  pub next_entry :
      (below : List lua.Value) (t k k' v : lua.Value) (rest : List (lua.Value × lua.Value)) (i : ℕ)
      (s : lua.State)
      → lua.stack s ≡ below ++ k ∷ []
      → get_elem? below i ≡ some t
      → tables.after t k ≡ (k', v) ∷ rest
      → ((tables.next (suc i) s).0 ≡ true)
        × (lua.stack (tables.next (suc i) s).1 ≡ below ++ k' ∷ v ∷ [])
        × (tables.after t k' ≡ rest)

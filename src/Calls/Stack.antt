-- ===== src/Calls/Stack.antt =====
-- What the calls rely on of Lua's stack, with the behaviour that its manual states, and `stack::remove`.
use sol.Base.{
  ℕ, zero, suc, ◌-◌, ◌≡◌, Bool, false, ◌==◌, ◌&&◌, ◌||◌, if◌then◌else◌, List, [], ◌∷◌, ◌++◌, some,
  ◌⊎◌, length, get_elem?,
}

-- An index of Lua's API: a position from the bottom, or from the top if it is negative.
pub data ℤ : Type 0 where
  pos negsuc : ℕ → ℤ

pub data CallStatus : Type 0 where
  ok yielded runtime memory handler gc syntax file : CallStatus

-- One thread's stack.
pub record LuaStack : Type 1 where
  pub State : Type 0
  pub Value : Type 0
  -- The stack, bottom first.
  pub stack : State → List Value
  pub gettop : State → ℕ
  pub absindex : ℤ → State → ℤ
  pub pop : ℕ → State → State
  pub remove : ℕ → State → State
  pub pushvalue : ℕ → State → State
  -- The `push` of a reference to a value.
  pub push : Value → State → State
  -- `lua_pcall` and `lua_call` with LUA_MULTRET, and the index of the message handler.
  pub pcall : ℕ → ℕ → State → CallStatus × State
  pub call : ℕ → State → State

pub record IsLuaStack (lua : LuaStack) : Type 0 where
  pub gettop_lem : (s : lua.State) → lua.gettop s ≡ length (lua.stack s)
  pub absindex_pos : (n : ℕ) (s : lua.State) → lua.absindex (pos n) s ≡ pos n
  pub absindex_negsuc :
      (n : ℕ) (s : lua.State) → lua.absindex (negsuc n) s ≡ pos (length (lua.stack s) - n)
  pub pop_lem :
      (xs ys : List lua.Value) (s : lua.State)
      → lua.stack s ≡ xs ++ ys
      → lua.stack (lua.pop (length ys) s) ≡ xs
  pub remove_lem :
      (xs ys : List lua.Value) (x : lua.Value) (s : lua.State)
      → lua.stack s ≡ xs ++ x ∷ ys
      → lua.stack (lua.remove (suc (length xs)) s) ≡ xs ++ ys
  pub pushvalue_lem :
      (i : ℕ) (v : lua.Value) (s : lua.State)
      → get_elem? (lua.stack s) i ≡ some v
      → lua.stack (lua.pushvalue (suc i) s) ≡ lua.stack s ++ v ∷ []
  pub push_lem : (v : lua.Value) (s : lua.State) → lua.stack (lua.push v s) ≡ lua.stack s ++ v ∷ []
  -- The function and its arguments are replaced by what it returns, or by one error value.
  pub pcall_lem :
      (below args : List lua.Value) (f : lua.Value) (h : ℕ) (s : lua.State)
      → lua.stack s ≡ below ++ f ∷ args
      → (returned : List lua.Value) × (lua.stack (lua.pcall (length args) h s).1
          ≡ below ++ returned)
        × (((lua.pcall (length args) h s).0 ≡ ok) ⊎ (length returned ≡ 1))
  pub call_lem :
      (below args : List lua.Value) (f : lua.Value) (s : lua.State)
      → lua.stack s ≡ below ++ f ∷ args
      → (returned : List lua.Value) × (lua.stack (lua.call (length args) s) ≡ below ++ returned)

unfoldable pub is_minus : ℤ → ℕ → Bool
is_minus (pos n) count = n == 0 && count == 0
is_minus (negsuc n) count = suc n == count

unfoldable pub is_pos : ℤ → ℕ → Bool
is_pos (pos n) top = n == top
is_pos (negsuc n) top = false

module _ (lua : LuaStack) where
  open lua use {State, Value, stack}

  -- `if (index < 0) index = lua_gettop(L) + (index + 1);`
  unfoldable pub from_bottom : ℤ → State → ℕ
  from_bottom (pos n) s = n
  from_bottom (negsuc n) s = lua.gettop s - n

  unfoldable pub remove_times : ℕ → ℕ → State → State
  remove_times zero index s = s
  remove_times (suc n) index s = remove_times n index (lua.remove index s)

  -- `stack::remove`, for a count that is not negative.
  unfoldable pub remove : ℤ → ℕ → State → State
  remove rawindex count s =
      if count == 0
      then s
      else if lua.gettop s == 0
      then s
      else if is_minus rawindex count || is_pos rawindex (lua.gettop s)
      then lua.pop count s
      else remove_times count (from_bottom (lua.absindex rawindex s) s) s

  -- `stack::multi_push_reference` of references to values.
  unfoldable pub push_all : List Value → State → State
  push_all [] s = s
  push_all (v ∷ vs) s = push_all vs (lua.push v s)

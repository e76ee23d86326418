-- ===== src/Coroutines/Thread.antt =====
-- What coroutines rely on of a Lua thread, beside its stack.
use sol.Base.{ℕ, ◌≡◌, false, List, [], ◌∷◌, ◌++◌, length}
use sol.Calls.Stack.{LuaStack, CallStatus}
use sol.Calls.Result.{is_success}

-- `lua_resume`, `lua_call` for one result, and the text of a value, as a value.
pub record LuaThread (lua : LuaStack) : Type 0 where
  pub resume : ℕ → lua.State → CallStatus × lua.State
  pub call_one : ℕ → lua.State → lua.State
  pub text : lua.Value → lua.Value

-- An error object is on the top of the stack, which is not unwound. A handler that is called returns.
pub record IsLuaThread (lua : LuaStack) (thread : LuaThread lua) : Type 0 where
  pub resume_error :
      (f : lua.Value) (args : List lua.Value) (s : lua.State)
      → lua.stack s ≡ f ∷ args
      → is_success (thread.resume (length args) s).0 ≡ false
      → (rest : List lua.Value) × (e : lua.Value) × (lua.stack (thread.resume (length args) s).1
          ≡ rest ++ e ∷ [])
  pub call_one_lem :
      (below args : List lua.Value) (f : lua.Value) (s : lua.State)
      → lua.stack s ≡ below ++ f ∷ args
      → (answer : lua.Value) × (lua.stack (thread.call_one (length args) s) ≡ below ++ answer ∷ [])

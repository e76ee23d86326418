-- ===== src/Coroutines/Leaving.antt =====
-- What a resumed coroutine leaves on its stack, and what the end of the result takes away.
use sol.Base.{
  ℕ, ◌-◌, ◌≡◌, true, false, Option, none, some, List, [], ◌∷◌, ◌++◌, length, get_elem?, ◌⊎◌,
}
use sol.Calls.Stack.{LuaStack, CallStatus}
use sol.Calls.Result.{ProtectedFunctionResult, is_success, destroy}
use sol.Coroutines.Thread.{LuaThread}

-- What a resumption has come to: it succeeded, and the result stands for the whole stack, which its end
-- empties; or it failed, and the result stands for one value, the error or the handler's answer.
pub record Resumed (lua : LuaStack) (r : ProtectedFunctionResult) (s : lua.State) : Type 0 where
  pub at_bottom : r.index ≡ 1
  pub all_counted : r.returncount ≡ length (lua.stack s)
  pub emptied : lua.stack (destroy lua r s) ≡ []

pub record Broken (lua : LuaStack) (r : ProtectedFunctionResult) (left : ℕ) (s : lua.State)
    : Type 0 where
  pub refers_to : lua.Value
  pub on_top : get_elem? (lua.stack s) (r.index - 1) ≡ some refers_to
  pub one_counted : r.returncount ≡ 1
  pub left_behind : length (lua.stack (destroy lua r s)) ≡ left

abbrev pub handlers {ℓ} : {A : Type ℓ} → Option A → ℕ
handlers none = 0
handlers (some _) = 1

-- Where a resumption has failed and left `s1`: nothing is done, or the handler is called with the text of
-- the error on the top.
abbrev pub Answered :
    (lua : LuaStack) → LuaThread lua → Option lua.Value → lua.State → lua.State → Type 0
Answered lua thread none s1 s' = s' ≡ s1
Answered lua thread (some h) s1 s' =
    (rest : List lua.Value) × (e : lua.Value) × (lua.stack s1 ≡ rest ++ e ∷ [])
    × (s' ≡ thread.call_one 1 (lua.push (thread.text e) (lua.push h s1)))

-- What becomes of `resumed`, what Lua has resumed the coroutine to.
abbrev pub Ends :
    (lua : LuaStack)
    → LuaThread lua
    → CallStatus × lua.State
    → Option lua.Value
    → ProtectedFunctionResult
    → lua.State
    → Type 0
Ends lua thread (status, s1) h r s' =
    ((is_success status ≡ true) × Resumed lua r s' × (s' ≡ s1))
    ⊎ ((is_success status ≡ false) × Broken lua r (handlers h) s' × Answered lua thread h s1 s')

-- ===== src/Calls/Invoke.antt =====
-- `call` of basic_protected_function and basic_function, for functions that are not on the stack yet
-- and for all that they return.
use sol.Base.{ℕ, ◌+◌, ◌-◌, Bool, not, ◌==◌, ◌&&◌, if◌then◌else◌, List, length, ltb}
use sol.Calls.Stack.{LuaStack, push_all}
use sol.Calls.Result.{ProtectedFunctionResult, UnsafeFunctionResult}

unfoldable pub max_one : ℕ → ℕ
max_one n = if ltb 1 n then n else 1

-- The error handler of a function: whether it is valid, whether it stands on the stack, and where.
pub record Handler (lua : LuaStack) : Type 0 where
  pub valid : Bool
  pub is_stack : Bool
  pub value : lua.Value
  pub stack_index : ℕ

module _ (lua : LuaStack) where
  open lua use {State, Value}

  -- The constructors of `protected_handler`: its `stackindex`.
  unfoldable pub handler_construct : Handler lua → State → ℕ × State
  handler_construct h s =
      if not h.valid
      then (0, s)
      else if h.is_stack
      then (h.stack_index, s)
      else (lua.gettop s + 1, lua.push h.value s)

  -- Its destructor.
  unfoldable pub handler_destroy : Handler lua → ℕ → State → State
  handler_destroy h stackindex s =
      if h.is_stack then s else if stackindex == 0 then s else lua.remove stackindex s

  -- One value for a handler that `call` has pushed.
  unfoldable pub handler_size : Handler lua → ℕ
  handler_size h = if h.valid && not h.is_stack then 1 else 0

  unfoldable pub invoke : Handler lua → ℕ → ℕ → State → ProtectedFunctionResult × State
  invoke h stackindex n s =
      let firstreturn = max_one (lua.gettop s - n - handler_size h) in
      let (code, s') = lua.pcall n stackindex s in
      let poststacksize = lua.gettop s' - handler_size h in
      let returncount = poststacksize - (firstreturn - 1) in
      (
        record {
          index = firstreturn;
          returncount = returncount;
          popcount = returncount;
          err = code;
        },
        s',
      )

  unfoldable pub call : Value → Handler lua → List Value → State → ProtectedFunctionResult × State
  call f h args s =
      let (stackindex, s1) = handler_construct h s in
      let (result, s2) = invoke h stackindex (length args) (push_all lua args (lua.push f s1)) in
      (result, handler_destroy h stackindex s2)

  unfoldable pub invoke_unsafe : ℕ → State → UnsafeFunctionResult × State
  invoke_unsafe n s =
      let firstreturn = max_one (lua.gettop s - n) in
      let s' = lua.call n s in
      (record { index = firstreturn; returncount = lua.gettop s' - (firstreturn - 1) }, s')

  unfoldable pub call_unsafe : Value → List Value → State → UnsafeFunctionResult × State
  call_unsafe f args s = invoke_unsafe (length args) (push_all lua args (lua.push f s))

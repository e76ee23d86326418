-- ===== src/Calls/Scripts.antt =====
-- include/sol/state_view.hpp: `load`, `do_string` and `safe_script`, and load_result.hpp.
use sol.Base.{ℕ, Bool, true, false, not, ◌&&◌, if◌then◌else◌, List, [], length}
use sol.Calls.Stack.{LuaStack, pos, negsuc, CallStatus, ok, syntax, from_bottom, remove, push_all}
use sol.Calls.Result.{ProtectedFunctionResult, valid}
use sol.Calls.Invoke.{Handler, handler_construct, handler_destroy, invoke}

-- What scripts need of Lua besides the calls: `luaL_loadbufferx` for one piece of code, and
-- `lua_replace` at the index -3.
pub record Loader (lua : LuaStack) : Type 0 where
  pub loadbufferx : lua.State → CallStatus × lua.State
  pub replace : lua.State → lua.State

pub record LoadResult : Type 0 where
  pub index : ℕ
  pub returncount : ℕ
  pub popcount : ℕ
  pub err : CallStatus

unfoldable pub is_ok : CallStatus → Bool
is_ok ok = true
is_ok _ = false

-- The move constructor: the new result, and what is left of the old one.
unfoldable pub move_load : LoadResult → LoadResult × LoadResult
move_load o = (
  record { index = o.index; returncount = o.returncount; popcount = o.popcount; err = o.err },
  record { index = 0; returncount = 0; popcount = 0; err = syntax },
)

module _ (lua : LuaStack) (loader : Loader lua) where
  open lua use {State, Value}

  unfoldable pub load : State → LoadResult × State
  load s =
      let (x, s1) = loader.loadbufferx s in
      (
        record {
          index = from_bottom lua (lua.absindex (negsuc 0) s1) s1;
          returncount = 1;
          popcount = 1;
          err = x;
        },
        s1,
      )

  unfoldable pub destroy_load : LoadResult → State → State
  destroy_load r s = remove lua (pos r.index) r.popcount s

  -- `call` of a function that stands at an index of the stack, on the top. An error handler that is not
  -- on the stack is put below it.
  unfoldable pub call_aligned :
      Handler lua → ℕ → List Value → State → ProtectedFunctionResult × State
  call_aligned h index args s =
      if h.valid && not h.is_stack
      then (let swapped = loader.replace (handler_construct lua h (lua.pushvalue index s)).1 in
          let stackindex = from_bottom lua (lua.absindex (negsuc 1) swapped) swapped in
          let (result, s1) = invoke lua h stackindex (length args) (push_all lua args swapped) in
          (result, handler_destroy lua h stackindex s1))
      else let (stackindex, s1) = handler_construct lua h s in
        let (result, s2) = invoke lua h stackindex (length args) (push_all lua args s1) in
        (result, handler_destroy lua h stackindex s2)

  -- `h` is the default handler.
  unfoldable pub do_string : Handler lua → State → ProtectedFunctionResult × State
  do_string h s =
      let (x, s1) = loader.loadbufferx s in
      let top = from_bottom lua (lua.absindex (negsuc 0) s1) s1 in
      if not (is_ok x)
      then (record { index = top; returncount = 0; popcount = 1; err = x }, s1)
      else call_aligned h top [] s1

  unfoldable pub safe_script :
      (ProtectedFunctionResult → State → ProtectedFunctionResult × State)
      → Handler lua
      → State
      → ProtectedFunctionResult × State
  safe_script on_error h s =
      let (pfr, s1) = do_string h s in if not (valid pfr) then on_error pfr s1 else (pfr, s1)

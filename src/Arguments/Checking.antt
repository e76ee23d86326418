-- ===== src/Arguments/Checking.antt =====
-- stack_check_unqualified.hpp and `multi_check`: the tests of values against the types of parameters.
use sol.Base.{
  ℕ, zero, suc, ◌+◌, Bool, true, false, ◌==◌, ◌&&◌, ◌||◌, if◌then◌else◌, List, Option, some,
}
use sol.Base
use sol.Arguments.Types.{
  LuaType, Value, value_at, is_type, Tracking, use_slots, Leaf, ArgType, ArgTypes, boolean,
  integral, floating, text, lightuserdata, std_function, lua_nil, reference, leaf, transparent,
  variadic, lua_type, optional, tuple, pair, variant, no_types, also, object, table, function,
  userdata, thread,
}

-- What a check comes to: it returns true, with the record, or false, or the handler raises a Lua error.
-- The record of a check that fails is `left_type`; only the getter of an optional variant reads it.
pub data Checked : Type 0 where
  passed : Tracking → Checked
  refused raised : Checked

-- The end of a check that fails. The handler is one that raises, or `no_panic`, which does nothing.
unfoldable pub fail : Bool → Checked
fail true = raised
fail false = refused

-- The check for a function that is not a C function.
unfoldable pub is_callable : Value → Bool
unfolding is_type
is_callable v =
    is_type LuaType.lua_nil v
    || is_type LuaType.none v
    || is_type LuaType.function v
    || ((is_type LuaType.userdata v || is_type LuaType.table v) && v.has_call)

unfoldable pub is_lua_integer : Value → Bool
unfolding is_type
is_lua_integer v = is_type LuaType.number v && v.integer

-- The value is one of the type. (Of `lua_nil_t`: it is nil, or there is none.)
unfoldable pub accepts : Leaf → Value → Bool
unfolding is_type is_callable is_lua_integer
accepts boolean v = is_type LuaType.boolean v
accepts integral v = is_lua_integer v
accepts floating v = is_type LuaType.number v
accepts text v = is_type LuaType.string v
accepts lightuserdata v = is_type LuaType.userdata v || is_type LuaType.lightuserdata v
accepts std_function v = is_callable v
accepts lua_nil v = is_type LuaType.lua_nil v || is_type LuaType.none v
accepts (reference object) v = true
accepts (reference table) v = is_type LuaType.table v || is_type LuaType.userdata v
accepts (reference function) v = is_callable v
accepts (reference userdata) v = is_type LuaType.userdata v
accepts (reference thread) v = is_type LuaType.thread v

-- `lua_nil_t` takes no slot where there is no value.
unfoldable pub check_nil : Bool → Value → Tracking → Checked
unfolding is_type fail
check_nil panics v t =
    if is_type LuaType.lua_nil v
    then passed (use_slots 1 t)
    else if is_type LuaType.none v
    then passed (use_slots 0 t)
    else fail panics

unfoldable pub check_leaf : Bool → Leaf → Value → Tracking → Checked
unfolding accepts fail check_nil
check_leaf panics lua_nil v t = check_nil panics v t
check_leaf panics l v t = if accepts l v then passed (use_slots 1 t) else fail panics

-- `is_one` of no type at all.
unfoldable pub check_none_fits : Bool → ArgTypes → Value → Tracking → Checked
unfolding is_type fail
check_none_fits panics no_types v t = if is_type LuaType.none v then passed t else fail panics
check_none_fits panics (also a ts) v t = fail panics

unfoldable pub optional_check : Value → Tracking → Checked → Checked
unfolding is_type
optional_check v t inner =
    if is_type LuaType.none v
    then passed (use_slots 0 t)
    else if is_type LuaType.lua_nil v
    then passed (use_slots 1 t)
    else inner

unfoldable mutual
  unfolding check_leaf check_none_fits optional_check

  -- `check<T>`
  pub check_type : List Value → ArgType → Bool → ℕ → Tracking → Checked
  check_type s (leaf l) panics i t = check_leaf panics l (value_at s i) t
  check_type s transparent panics i t = passed (use_slots 0 t)
  check_type s variadic panics i t = passed (use_slots 0 t)
  check_type s lua_type panics i t = passed (use_slots 0 t)
  check_type s (optional a) panics i t = optional_check (value_at s i) t (check_type s a false i t)
  check_type s (tuple ts) panics i t = check_types s ts panics i t
  check_type s (pair a b) panics i t = elim (check_type s a panics (i + t.used) t) [
    | passed t' ↦ check_type s b panics (i + t'.used) t'
    | refused ↦ refused
    | raised ↦ raised
  ]
  check_type s (variant ts) panics i t = elim (is_one s ts i t) [
    | Base.Option.none ↦ check_none_fits panics ts (value_at s i) t
    | some t' ↦ passed t'
  ]

  -- The types in order, each from the slot behind those that are used.
  pub check_types : List Value → ArgTypes → Bool → ℕ → Tracking → Checked
  check_types s no_types panics firstargument t = passed t
  check_types s (also a ts) panics firstargument t =
      elim (check_type s a panics (firstargument + t.used) t) [
        | passed t' ↦ check_types s ts panics firstargument t'
        | refused ↦ refused
        | raised ↦ raised
      ]

  -- The alternatives of a variant from the last to the first, each with a record of its own.
  pub is_one : List Value → ArgTypes → ℕ → Tracking → Option Tracking
  is_one s no_types i t = Base.Option.none
  is_one s (also a ts) i t = elim (is_one s ts i t) [
    | some t' ↦ some t'
    | Base.Option.none ↦ elim (check_type s a false i t) [
      | passed t' ↦ some t'
      | refused ↦ Base.Option.none
      | raised ↦ Base.Option.none
    ]
  ]

unfoldable pub left_leaf : Leaf → Tracking → Tracking
left_leaf lua_nil t = use_slots 0 t
left_leaf _ t = use_slots 1 t

unfoldable pub left_pair : Checked → (Tracking → Tracking) → Tracking → Tracking
left_pair (passed t') rest failed = rest t'
left_pair _ rest failed = failed

unfoldable mutual
  unfolding check_type use_slots left_leaf left_pair

  -- The record when `check<T>` has returned false.
  pub left_type : List Value → ArgType → ℕ → Tracking → Tracking
  left_type s (leaf l) i t = left_leaf l t
  left_type s (optional a) i t = left_type s a i t
  left_type s (tuple ts) i t = left_types s ts i t
  left_type s (pair a b) i t =
      left_pair (check_type s a false (i + t.used) t) (λ t'. left_type s b (i + t'.used) t')
        (left_type s a (i + t.used) t)
  left_type s (variant ts) i t = use_slots 1 t
  left_type s _ i t = t

  -- `multi_check`: the record behind the first that fails.
  pub left_types : List Value → ArgTypes → ℕ → Tracking → Tracking
  left_types s no_types firstargument t = t
  left_types s (also a ts) firstargument t =
      left_pair (check_type s a false (firstargument + t.used) t)
        (λ t'. left_types s ts firstargument t') (left_type s a (firstargument + t.used) t)

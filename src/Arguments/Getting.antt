-- ===== src/Arguments/Getting.antt =====
-- stack_get_unqualified.hpp and stack_check_get_unqualified.hpp: arguments read from the stack, and
-- stack.hpp: calls with them.
use sol.Base.{
  ℕ, ◌+◌, ◌-◌, Bool, true, false, not, ◌==◌, ◌&&◌, ◌||◌, if◌then◌else◌, List, Option, some, length,
}
use sol.Base
use sol.Arguments.Types.{
  LuaType, Value, value_at, is_type, Tracking, fresh, use_slots, Leaf, ArgType, ArgTypes, integral,
  floating, reference, leaf, transparent, variadic, lua_type, optional, tuple, pair, variant,
  no_types, also, lua_sizes,
}
use sol.Arguments.Checking.{
  Checked, passed, refused, raised, is_lua_integer, accepts, check_type, check_types, left_type,
}

-- What was read: a value at an index, as a value of the type; what there is from an index on, for
-- `variadic_args`; the type of the value at an index; no value, of an optional argument at an index;
-- one of the alternatives of a variant, by number, or the variant of no types; or `std::abort`.
mutual
  pub data Got : Type 0 where
    value : Leaf → ℕ → Value → Got
    state empty aborted : Got
    rest type_at nothing : ℕ → Got
    engaged : Got → Got
    together : Gots → Got
    alternative : ℕ → Got → Got

  pub data Gots : Type 0 where
    no_gots : Gots
    with_got : Got → Gots → Gots

-- `static_cast<int>(!lua_isnone(L, index))`
unfoldable pub present : Value → ℕ
unfolding is_type
present v = if is_type LuaType.none v then 0 else 1

-- `lua_tonumberx` makes a number of the value.
unfoldable pub is_numeric : Value → Bool
unfolding is_type
is_numeric v = is_type LuaType.number v || (is_type LuaType.string v && v.numeral)

-- The value is read, or there is none and a number of slots are used all the same.
abbrev attempt : Bool → ℕ → Leaf → ℕ → Value → Tracking → Got × Tracking
attempt fits otherwise l i v t =
    if fits then (engaged (value l i v), use_slots 1 t) else (nothing i, use_slots otherwise t)

-- `unqualified_check_getter`, of a type that is read from one value. Where a reference does not fit, no
-- slot is used.
unfoldable pub check_get_leaf : Leaf → ℕ → Value → Tracking → Got × Tracking
unfolding accepts is_type present is_numeric is_lua_integer use_slots
check_get_leaf (reference r) i v t =
    let is_none_or_nil = is_type LuaType.none v || is_type LuaType.lua_nil v in
    attempt (not is_none_or_nil && accepts (reference r) v) 0 (reference r) i v t
check_get_leaf integral i v t =
    attempt (is_lua_integer v || (is_numeric v && v.whole)) (present v) integral i v t
check_get_leaf floating i v t = attempt (is_numeric v) (present v) floating i v t
check_get_leaf l i v t = attempt (accepts l v) (present v) l i v t

-- `unqualified_check_getter`, of any other type: the check has a record of its own.
unfoldable pub check_get_other : Checked → ℕ → Value → Tracking → Got × Tracking → Got × Tracking
unfolding present use_slots
check_get_other (passed _) i v t (g, t') = (engaged g, t')
check_get_other _ i v t got = (nothing i, use_slots (present v) t)

-- What is read of an optional variant.
unfoldable pub engage : ℕ → Option Got × Tracking → Got × Tracking
engage i (Base.Option.none, t) = (nothing i, t)
engage i (some g, t) = (engaged g, t)

-- Alternatives behind the one at hand come first, and it is tried with the record that they have left.
unfoldable pub or_else_read :
    Option Got × Tracking → (Tracking → Option Got × Tracking) → Option Got × Tracking
or_else_read (some g, t) own = (some g, t)
or_else_read (Base.Option.none, t) own = own t

unfoldable mutual
  unfolding check_type left_type check_get_leaf check_get_other use_slots engage or_else_read

  -- `get<T>`
  pub get_type : List Value → ArgType → ℕ → Tracking → Got × Tracking
  get_type s (leaf l) i t = (value l i (value_at s i), use_slots 1 t)
  get_type s transparent i t = (state, use_slots 0 t)
  get_type s variadic i t = (rest i, record t { last = 0 })
  get_type s lua_type i t = (type_at i, use_slots 1 t)
  get_type s (optional (leaf l)) i t = check_get_leaf l i (value_at s i) t
  get_type s (optional (variant ts)) i t = engage i (get_last s ts 0 i t)
  get_type s (optional a) i t =
      check_get_other (check_type s a false i fresh) i (value_at s i) t (get_type s a i t)
  get_type s (tuple ts) i t = let (gs, t') = get_types s ts i t in (together gs, t')
  get_type s (pair a b) i t =
      let (g, t') = get_type s a i t in
      let (h, t'') = get_type s b (i + t'.used) t' in
      (together (with_got g (with_got h no_gots)), t'')
  get_type s (variant ts) i t = get_one s ts 0 i t

  -- `eval`, and the tuples: the types in order, each from the slot behind those that are used.
  pub get_types : List Value → ArgTypes → ℕ → Tracking → Gots × Tracking
  get_types s no_types start t = (no_gots, t)
  get_types s (also a ts) start t =
      let (g, t') = get_type s a (start + t.used) t in
      let (gs, t'') = get_types s ts start t' in (with_got g gs, t'')

  -- The alternatives of a variant from the first to the last. The record is the one of the check.
  pub get_one : List Value → ArgTypes → ℕ → ℕ → Tracking → Got × Tracking
  get_one s no_types n i t = (if n == 0 then empty else aborted, t)
  get_one s (also a ts) n i t = elim (check_type s a false i t) [
    | passed t' ↦ (alternative n (get_type s a i fresh).0, t')
    | refused ↦ get_one s ts (n + 1) i t
    | raised ↦ get_one s ts (n + 1) i t
  ]

  -- The alternatives of an optional variant from the last to the first, with one record for all of them.
  pub get_last : List Value → ArgTypes → ℕ → ℕ → Tracking → Option Got × Tracking
  get_last s no_types n i t = (Base.Option.none, t)
  get_last s (also a ts) n i t = or_else_read (get_last s ts (n + 1) i t) (λ t1.
      elim (check_type s a false i t1) [
        | passed t2 ↦ (some (alternative n (get_type s a i fresh).0), t2)
        | refused ↦ (Base.Option.none, left_type s a i t1)
        | raised ↦ (Base.Option.none, left_type s a i t1)
      ])

-- A call from Lua ends with an error, or calls the function with the arguments.
pub data CallOutcome : Type 0 where
  error : CallOutcome
  called : Gots → CallOutcome

unfoldable pub call_checked : Checked → Gots → CallOutcome
call_checked raised gs = error
call_checked _ gs = called gs

-- `stack_detail::call`. What the check returns is not read.
unfoldable pub call_arguments : Bool → List Value → ArgTypes → ℕ → CallOutcome
unfolding call_checked check_types get_types
call_arguments checkargs s ts start =
    let gs = (get_types s ts start fresh).0 in
    if checkargs then call_checked (check_types s ts true start fresh) gs else called gs

-- `call_from_top`
unfoldable pub call_from_top : Bool → List Value → ArgTypes → CallOutcome
unfolding call_arguments lua_sizes
call_from_top checkargs s ts = call_arguments checkargs s ts (length s - lua_sizes ts)

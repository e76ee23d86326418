-- ===== src/Arguments/Shifts.antt =====
-- Parameters that are read from other slots than those behind the ones before.
use mathlib.Core.List.{append-nil}
use sol.Base.{ℕ, ◌+◌, ◌≡◌, refl, arith, Bool, true, false, List, [], ◌∷◌, ◌++◌, length}
use sol.Arguments.Types.{
  LuaType, is_type, Value, value_at, Tracking, fresh, use_slots, Leaf, ReferenceType, reference,
  ArgTypes, leaf, optional, tuple, no_types, also,
}
use sol.Arguments.Checking.{Checked, passed, optional_check, check_type, check_types}
use sol.Arguments.Getting.{nothing, check_get_leaf, get_types}
use sol.Arguments.Positions.{all_positions, from}

-- Parameters that are read from one value each, and more behind them.
abbrev pub leaves : List Leaf → ArgTypes → ArgTypes
leaves [] ts = ts
leaves (l ∷ ls) ts = also (leaf l) (leaves ls ts)

leaves-positions :
    (ls : List Leaf) (ts : ArgTypes) (s : List Value) (start i : ℕ) (t : Tracking)
    → start + t.used ≡ i
    → (t' : Tracking) × (t'.used ≡ t.used + length ls)
      × (all_positions (get_types s (leaves ls ts) start t).0
          ≡ from i (length ls) ++ all_positions (get_types s ts start t').0)
unfolding get_types use_slots
leaves-positions [] ts s start i t e = (t, omega arith, refl)
leaves-positions (l ∷ ls) ts s start i t e =
    let (t', used, read) = leaves-positions ls ts s start (i + 1) (use_slots 1 t) (omega arith) in
    (t', omega (arith, used), cc)

-- A tuple behind other parameters, which are read from one slot each, is read from as many slots further
-- on than the slot behind them as there are such parameters.
pub get_types-tuple :
    (ls ms : List Leaf) (s : List Value) (start : ℕ)
    → all_positions
        (get_types s (leaves ls (also (tuple (leaves ms no_types)) no_types)) start fresh).0
      ≡ from start (length ls) ++ from (start + length ls + length ls) (length ms)
unfolding get_types
get_types-tuple ls ms s start =
    let (t, used, read) =
      leaves-positions ls (also (tuple (leaves ms no_types)) no_types) s start start fresh
        (omega arith) in
    let (t', used', inner) =
      leaves-positions ms no_types s (start + t.used) (start + length ls + length ls) t
        (omega arith) in
    let there : start + t.used + t.used ≡ start + length ls + length ls = omega (arith, used) in
    cc (append-nil (from (start + length ls + length ls) (length ms)))

-- An optional reference that is nil takes a slot when it is checked, and none when it is read.
nil_checked :
    (v : Value) (t : Tracking) (inner : Checked)
    → is_type LuaType.lua_nil v ≡ true
    → optional_check v t inner ≡ passed (use_slots 1 t)
unfolding optional_check is_type
nil_checked v t inner h = ground arith

nil_read :
    (r : ReferenceType) (i : ℕ) (v : Value) (t : Tracking)
    → is_type LuaType.lua_nil v ≡ true
    → check_get_leaf (reference r) i v t ≡ (nothing i, use_slots 0 t)
unfolding check_get_leaf
nil_read r i v t h = ground arith

-- Where an optional reference is nil, the check tests the other parameters' values from the next slot
-- on, and they are read from the slot of the nil on.
pub optional_reference-shifts :
    (r : ReferenceType) (ls : List Leaf) (s : List Value) (start : ℕ) (p : Bool)
    → is_type LuaType.lua_nil (value_at s start) ≡ true
    → (check_types s (also (optional (leaf (reference r))) (leaves ls no_types)) p start fresh
        ≡ check_types s (leaves ls no_types) p start (use_slots 1 fresh))
      × (all_positions
            (get_types s (also (optional (leaf (reference r))) (leaves ls no_types)) start fresh).0
          ≡ start ∷ from start (length ls))
unfolding get_types check_types
optional_reference-shifts r ls s start p h =
    let here : start + 0 ≡ start = omega arith in
    let v : Value = value_at s (start + 0) in
    let nil : is_type LuaType.lua_nil (value_at s (start + 0)) ≡ true = rw here h in
    let (t', _, read) =
      leaves-positions ls no_types s start start (use_slots 0 fresh) (omega arith) in
    (
      rw
          (
            check_types,
            check_type,
            nil_checked v fresh (check_type s (leaf (reference r)) false (start + 0) fresh) nil,
          )
          refl,
      rw (nil_read r (start + 0) v fresh nil)
          (cc (here, read, append-nil (from start (length ls)))),
    )

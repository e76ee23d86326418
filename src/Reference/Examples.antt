-- ===== src/Reference/Examples.antt =====
-- References of one state, and runs that make, copy, move and destroy them.
use sol.Base.{
  ℕ, ◌≡◌, refl, [], ◌∷◌, none, some, true, false, if◌then◌else◌, ◌==◌, inl, inr, Bool-cases,
}
use sol.Reference.Lua.{at}
use sol.Reference.Small.{Memory, small_lua, small_lua-IsLua, group_of}
use sol.Reference.Handle.{
  Reference, empty, copy_assign, move_assign, from_index, destroy, copy_construct,
}
use sol.Reference.Effects.{Holds, slot_of, is_slot}
use sol.Reference.Copies.{IsMade, copy_assign-IsMade}
use sol.Reference.Moves.{Moves, move_assign-Moves}
use sol.Reference.World.{
  World, IsValid, made, copied, move_assigned, destroyed, Reaches, none_yet, one_more, changed,
  changed_both,
}
use sol.Reference.Ownership.{reached-IsValid, reached-no_leak}

abbrev memory : Memory
memory = record { stacks = λ t. 5 ∷ []; keys = λ g. if g == 0 then 7 ∷ 8 ∷ [] else 9 ∷ [] }

abbrev first : Reference
first = record { luastate = 2; ref = at 0 }

abbrev second : Reference
second = record { luastate = 3; ref = at 1 }

abbrev second_holds : Holds small_lua second 8 memory
second_holds = record { key = 1; made = refl; not_null = refl; alive = refl }

copy_assign-IsMade_example :
    IsMade small_lua memory
      (copy_assign small_lua true false first second memory).1
      (slot_of small_lua first)
      (copy_assign small_lua true false first second memory).0
      8
copy_assign-IsMade_example =
    copy_assign-IsMade small_lua small_lua-IsLua true false first second memory 8 second_holds refl

second_usable : (k : ℕ) → second.ref ≡ at k → (second.luastate == 0) ≡ false
second_usable k e = refl

second_alive :
    (k : ℕ)
    → second.ref ≡ at k
    → (v : ℕ) × (small_lua.live memory (group_of second.luastate) k ≡ some v)
second_alive k e = let same : k ≡ 1 = cc in rw same (8, refl)

second_apart :
    (k : ℕ)
    → second.ref ≡ at k
    → is_slot (slot_of small_lua first) (group_of second.luastate) k ≡ false
second_apart k e = let same : k ≡ 1 = cc in rw same refl

move_assign-Moves_example :
    let (self', r', s') = move_assign small_lua true false first second memory in
    Moves small_lua memory s' (slot_of small_lua first) first second self' r'
move_assign-Moves_example =
    move_assign-Moves small_lua small_lua-IsLua true false first second memory second_usable
      second_alive second_apart

abbrev start : World small_lua
start = record { objects = λ i. empty; state = record { stacks = λ t. 5 ∷ []; keys = λ g. [] } }

start-IsValid : IsValid small_lua start
start-IsValid = record {
  owned = record { alive = λ i g k e. cc; unique = λ i j g k e e'. cc; owned = λ g k e. cc };
  usable = λ i k e. cc;
}

abbrev one_made : World small_lua
one_made = changed small_lua start 0 (from_index small_lua false 2 0 start.state)

abbrev two_made : World small_lua
two_made =
    changed small_lua one_made 1 (copy_construct small_lua (one_made.objects 0) one_made.state)

abbrev one_moved : World small_lua
one_moved =
    changed_both small_lua two_made 0 1
      (move_assign small_lua false false (two_made.objects 0) (two_made.objects 1) two_made.state)

abbrev run : Reaches small_lua start one_moved
run =
    one_more (one_more (one_more none_yet (made false 0 2 0 refl refl)) (copied 1 0 refl refl))
      (move_assigned false false 0 1 refl)

reached-IsValid_example : IsValid small_lua one_moved
reached-IsValid_example =
    reached-IsValid small_lua small_lua-IsLua start one_moved start-IsValid run

abbrev one_destroyed : World small_lua
one_destroyed =
    changed small_lua one_made 0 (empty, destroy small_lua (one_made.objects 0) one_made.state)

all_empty : (i : ℕ) → one_destroyed.objects i ≡ empty
all_empty i = elim (Bool-cases (0 == i)) [ inl e ↦ rw e refl | inr e ↦ rw e refl ]

reached-no_leak_example :
    ((t : ℕ) → small_lua.stack one_destroyed.state t ≡ small_lua.stack start.state t)
    × ((g k : ℕ) → small_lua.live one_destroyed.state g k ≡ none)
reached-no_leak_example =
    reached-no_leak small_lua small_lua-IsLua start one_destroyed start-IsValid
      (one_more (one_more none_yet (made false 0 2 0 refl refl)) (destroyed 0)) all_empty

-- ===== src/Layout/Unique.antt =====
-- stack_core.hpp: blocks for unique usertypes, with a pointer, a destructor, a tag and the data.
pub mod Laid
use sol.Base.{ℕ, ◌+◌, ◌-◌, List, [], ◌∷◌, Bool, true, false, ◌==◌, not, if◌then◌else◌}
use sol.Layout.Align.{TypeLayout, Aligned, word, wrap, nullptr, align, aligned_space_for}
use sol.Layout.Allocate.{Platform, Allocator, use_align}

-- The four addresses that `attempt_alloc_unique` writes to its reference arguments.
pub record Sections : Type 0 where
  pub pointer_adjusted : ℕ
  pub dx_adjusted : ℕ
  pub id_adjusted : ℕ
  pub data_adjusted : ℕ

pub record UniqueAttempt : Type 0 where
  pub result : Bool
  pub top : ℕ
  pub sections : Sections

-- After a section that was placed: the address behind it, and the room left behind it.
abbrev behind : Aligned → ℕ → ℕ
behind placed size = wrap (placed.result + size)

abbrev room_behind : Aligned → ℕ → ℕ
room_behind placed size = wrap (placed.cursor.space + word - size)

abbrev failed : ℕ → Sections → UniqueAttempt
failed top s = record { result = false; top = top; sections = s }

-- The sections in order. Each that cannot be placed pops the userdata and ends the attempt, with
-- the sections behind it as the caller set them.
unfoldable pub attempt_data : TypeLayout → ℕ → Sections → ℕ → ℕ → UniqueAttempt
attempt_data real top s adjusted allocated_size =
    let placed = align real.alignment real.size adjusted allocated_size in
    let s' = record s { data_adjusted = placed.result } in
    if placed.result == nullptr
    then failed top s'
    else record { result = true; top = top + 1; sections = s' }

unfoldable pub attempt_id : Platform → TypeLayout → ℕ → Sections → ℕ → ℕ → UniqueAttempt
attempt_id p real top s adjusted allocated_size =
    let placed = align p.unique_tag.alignment p.unique_tag.size adjusted allocated_size in
    let s' = record s { id_adjusted = placed.result } in
    if placed.result == nullptr
    then failed top s'
    else attempt_data real top s' (behind placed p.unique_tag.size)
        (room_behind placed p.unique_tag.size)

unfoldable pub attempt_dx : Platform → TypeLayout → ℕ → Sections → ℕ → ℕ → UniqueAttempt
attempt_dx p real top s adjusted allocated_size =
    let dx = p.unique_destructor in
    let placed = align dx.alignment dx.size adjusted allocated_size in
    let s' = record s { dx_adjusted = placed.result } in
    if placed.result == nullptr
    then failed top s'
    else attempt_id p real top s' (behind placed dx.size) (room_behind placed dx.size)

unfoldable pub attempt_alloc_unique :
    Platform → TypeLayout → TypeLayout → ℕ → ℕ → ℕ → Sections → UniqueAttempt
attempt_alloc_unique p pointer real unadjusted top allocated_size s =
    let placed = align pointer.alignment pointer.size unadjusted allocated_size in
    let s' = record s { pointer_adjusted = placed.result } in
    if placed.result == nullptr
    then failed top s'
    else attempt_dx p real top s' (behind placed pointer.size) (room_behind placed pointer.size)

-- `luaL_error` does not return; the three constructors without arguments are its messages.
pub data AllocatedUnique : Type 0 where
  allocated : (top : ℕ) → (sections : Sections) → AllocatedUnique
  pointer_section deleter_section data_section : AllocatedUnique

abbrev nulls : Sections
nulls = record {
  pointer_adjusted = nullptr;
  dx_adjusted = nullptr;
  id_adjusted = nullptr;
  data_adjusted = nullptr;
}

unfoldable pub unique_outcome : UniqueAttempt → AllocatedUnique
unique_outcome a =
    if a.result
    then allocated a.top a.sections
    else if a.sections.pointer_adjusted == nullptr
    then pointer_section
    else if a.sections.dx_adjusted == nullptr
    then deleter_section
    else data_section

unfoldable pub allocate_unique : Platform → TypeLayout → Allocator → ℕ → AllocatedUnique
unfolding unique_outcome
allocate_unique p real newuserdata top =
    let layouts = p.pointer ∷ p.unique_destructor ∷ p.unique_tag ∷ real ∷ [] in
    let initial_size = aligned_space_for layouts nullptr in
    let misaligned_size = aligned_space_for layouts 1 in
    let first =
      attempt_alloc_unique p p.pointer real (newuserdata 0 initial_size) top initial_size nulls in
    let second =
      attempt_alloc_unique p p.pointer real (newuserdata 1 misaligned_size) top misaligned_size
        nulls in
    if first.result then allocated first.top first.sections else unique_outcome second

-- Without alignment the sections stand one behind another.
abbrev pub packed : Platform → ℕ → Sections
packed p pref =
    let dx = wrap (pref + p.pointer.size) in
    let id = wrap (dx + p.unique_destructor.size) in
    record {
      pointer_adjusted = pref;
      dx_adjusted = dx;
      id_adjusted = id;
      data_adjusted = wrap (id + p.unique_tag.size);
    }

unfoldable pub usertype_unique_allocate : Platform → TypeLayout → Allocator → ℕ → AllocatedUnique
unfolding allocate_unique
usertype_unique_allocate p real newuserdata top =
    let size = p.pointer.size + p.unique_destructor.size + p.unique_tag.size + real.size in
    if not (use_align p (p.pointer ∷ p.unique_tag ∷ p.unique_destructor ∷ real ∷ []))
    then allocated (top + 1) (packed p (newuserdata 0 (wrap size)))
    else allocate_unique p real newuserdata top

-- ===== src/Layout/Allocate.antt =====
-- stack_core.hpp: the allocation of userdata blocks with aligned sections. `lua_newuserdata` is the
-- allocator's address for the requested size; each call pushes one userdata and `lua_pop` takes it
-- off again, which `top` counts.
use sol.Base.{
  ℕ, ◌+◌, ◌-◌, List, [], ◌∷◌, Bool, true, false, ◌==◌, ◌&&◌, ◌||◌, not, ltb, if◌then◌else◌,
}
use sol.Layout.Align.{TypeLayout, word, wrap, nullptr, align, aligned_space_for}

-- The pointer types of the platform, and whether `SOL_NO_MEMORY_ALIGNMENT` is off.
pub record Platform : Type 0 where
  pub memory_alignment : Bool
  pub pointer : TypeLayout
  pub unique_destructor : TypeLayout
  pub unique_tag : TypeLayout

unfoldable pub use_align : Platform → List TypeLayout → Bool
use_align p [] = false
use_align p (t ∷ ts) = (p.memory_alignment && ltb 1 t.alignment) || use_align p ts

-- The results and the arguments passed by reference.
pub record Attempt : Type 0 where
  pub result : Bool
  pub top : ℕ
  pub pointer_adjusted : ℕ
  pub data_adjusted : ℕ

unfoldable pub attempt_alloc_data : TypeLayout → ℕ → ℕ → ℕ → ℕ → Attempt
attempt_alloc_data value top pointer_adjusted adjusted allocated_size =
    let data_adjusted = (align value.alignment value.size adjusted allocated_size).result in
    if data_adjusted == nullptr
    then record {
      result = false;
      top = top;
      pointer_adjusted = pointer_adjusted;
      data_adjusted = data_adjusted;
    }
    else record {
      result = true;
      top = top + 1;
      pointer_adjusted = pointer_adjusted;
      data_adjusted = data_adjusted;
    }

-- `data` is what the caller's `data_adjusted` holds before. A failed section pops the userdata.
unfoldable pub attempt_alloc : TypeLayout → TypeLayout → ℕ → ℕ → ℕ → ℕ → Attempt
unfolding attempt_alloc_data
attempt_alloc pointer value unadjusted top allocated_size data_adjusted =
    let placed = align pointer.alignment pointer.size unadjusted allocated_size in
    if placed.result == nullptr
    then record {
      result = false;
      top = top;
      pointer_adjusted = placed.result;
      data_adjusted = data_adjusted;
    }
    else attempt_alloc_data value top placed.result (wrap (placed.result + pointer.size))
        (wrap (placed.cursor.space + word - pointer.size))

-- `luaL_error` does not return; `pointer_section` and `data_section` are its two messages.
pub data Allocated : Type 0 where
  allocated : (top : ℕ) → (pointer : ℕ) → (block : ℕ) → Allocated
  pointer_section data_section : Allocated

-- `newuserdata call size` is the address that call number `call` gets.
abbrev pub Allocator : Type 0
Allocator = ℕ → ℕ → ℕ

unfoldable pub retry_outcome : Attempt → Allocated
retry_outcome a =
    if a.result
    then allocated a.top a.pointer_adjusted a.data_adjusted
    else if a.pointer_adjusted == nullptr
    then pointer_section
    else data_section

-- With alignment: one attempt at the size for an aligned block, then one with room for padding.
unfoldable pub allocate_pair : TypeLayout → TypeLayout → Allocator → ℕ → Allocated
unfolding retry_outcome
allocate_pair pointer value newuserdata top =
    let initial_size = aligned_space_for (pointer ∷ value ∷ []) nullptr in
    let misaligned_size = aligned_space_for (pointer ∷ value ∷ []) 1 in
    let first = attempt_alloc pointer value (newuserdata 0 initial_size) top initial_size nullptr in
    let second =
      attempt_alloc pointer value (newuserdata 1 misaligned_size) top misaligned_size nullptr in
    if first.result
    then allocated first.top first.pointer_adjusted first.data_adjusted
    else retry_outcome second

-- The data address returned is also what the code stores at the pointer address.
unfoldable pub usertype_allocate : Platform → TypeLayout → Allocator → ℕ → Allocated
unfolding allocate_pair
usertype_allocate p value newuserdata top =
    let pointerpointer = newuserdata 0 (wrap (p.pointer.size + value.size)) in
    if not (use_align p (p.pointer ∷ value ∷ []))
    then allocated (top + 1) pointerpointer (wrap (pointerpointer + p.pointer.size))
    else allocate_pair p.pointer value newuserdata top

-- A block with a single section: the address, or the error.
pub data AllocatedOne : Type 0 where
  section : (top : ℕ) → (address : ℕ) → AllocatedOne
  cannot_align : AllocatedOne

unfoldable pub allocate_section : TypeLayout → Allocator → ℕ → AllocatedOne
allocate_section t newuserdata top =
    let initial_size = aligned_space_for (t ∷ []) nullptr in
    let misaligned_size = aligned_space_for (t ∷ []) 1 in
    let first = (align t.alignment t.size (newuserdata 0 initial_size) initial_size).result in
    let second =
      (align t.alignment t.size (newuserdata 1 misaligned_size) misaligned_size).result in
    if not (first == nullptr)
    then section (top + 1) first
    else if not (second == nullptr)
    then section (top + 1) second
    else cannot_align

unfoldable pub usertype_allocate_pointer : Platform → Allocator → ℕ → AllocatedOne
unfolding allocate_section
usertype_allocate_pointer p newuserdata top =
    if not (use_align p (p.pointer ∷ []))
    then section (top + 1) (newuserdata 0 p.pointer.size)
    else allocate_section p.pointer newuserdata top

unfoldable pub user_allocate : Platform → TypeLayout → Allocator → ℕ → AllocatedOne
unfolding allocate_section
user_allocate p value newuserdata top =
    if not (use_align p (value ∷ []))
    then section (top + 1) (newuserdata 0 value.size)
    else allocate_section value newuserdata top

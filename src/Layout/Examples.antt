-- ===== src/Layout/Examples.antt =====
-- Runs of the allocation on a 64-bit platform, and the theorems at concrete inputs.
use sol.Base.{ℕ, ◌≡◌, refl, arith, [], ◌∷◌, true, false}
use sol.Layout.Align.{TypeLayout, align, align_required, align_one, align_each, aligned_space_for}
use sol.Layout.Allocate.{Platform, Allocator, section, allocate_section}
use sol.Layout.Rounding.{round_up}
use sol.Layout.Unique.{Sections, attempt_data, attempt_id, attempt_dx, attempt_alloc_unique}
use sol.Layout.Unique.Laid.{IsRoomy, IsLaidOut, attempt_alloc_unique-IsLaidOut}
use sol.Layout.Access.{
  align_usertype_pointer, align_usertype_unique_destructor, align_usertype_unique_tag,
  align_usertype_unique, unique_destruct,
}
use sol.Layout.Found.{accessors_find_sections}
use sol.Layout.Retry.{IsAllocator, IsAllocated, allocate_section-IsAllocated}

abbrev word64 : TypeLayout
word64 = record { alignment = 8; size = 8 }

abbrev wide : TypeLayout
wide = record { alignment = 32; size = 96 }

abbrev lp64 : Platform
lp64 = record {
  memory_alignment = true;
  pointer = word64;
  unique_destructor = word64;
  unique_tag = word64;
}

abbrev packing : Platform
packing = record lp64 { memory_alignment = false }

abbrev unset : Sections
unset = record { pointer_adjusted = 0; dx_adjusted = 0; id_adjusted = 0; data_adjusted = 0 }

-- A block of 256 bytes at 1004.
abbrev placed : Sections
placed = record {
  pointer_adjusted = 1008;
  dx_adjusted = 1016;
  id_adjusted = 1024;
  data_adjusted = 1056;
}

space_for_wide : aligned_space_for (word64 ∷ wide ∷ []) 0 ≡ 128
unfolding aligned_space_for align_each align_one align align_required
space_for_wide = refl

roomy : IsRoomy lp64 wide 1260
roomy = record {
  pointer_pos = omega arith;
  dx_pos = omega arith;
  tag_pos = omega arith;
  real_pos = omega arith;
  pointer_far = omega arith;
  dx_far = omega arith;
  tag_far = omega arith;
  real_far = omega arith;
}

attempt_at_1004 :
    attempt_alloc_unique lp64 word64 wide 1004 3 256 unset
    ≡ record { result = true; top = 4; sections = placed }
unfolding attempt_alloc_unique attempt_dx attempt_id attempt_data align align_required
attempt_at_1004 = refl

placed-IsLaidOut : IsLaidOut lp64 wide 1004 1260 placed
unfolding round_up
placed-IsLaidOut = record {
  pointer_at = refl;
  dx_at = refl;
  id_at = refl;
  data_at = refl;
  from_base = omega arith;
  pointer_dx = omega arith;
  dx_id = omega arith;
  id_data = omega arith;
  data_end = omega arith;
}

attempt_alloc_unique-IsLaidOut_example :
    IsLaidOut lp64 wide 1004 1260 (attempt_alloc_unique lp64 word64 wide 1004 3 256 unset).sections
    × ((attempt_alloc_unique lp64 word64 wide 1004 3 256 unset).top ≡ 4)
unfolding attempt_alloc_unique attempt_dx attempt_id attempt_data align align_required
attempt_alloc_unique-IsLaidOut_example =
    attempt_alloc_unique-IsLaidOut lp64 wide 1004 1260 3 unset roomy (omega arith) refl

accessors_find_sections_example :
    (align_usertype_pointer lp64 1004 ≡ 1008)
    × (align_usertype_unique_destructor lp64 false false 1004 ≡ 1016)
    × (align_usertype_unique_tag lp64 false false 1004 ≡ 1024)
    × (align_usertype_unique lp64 wide false false 1004 ≡ 1056)
    × (unique_destruct lp64 wide 1004 ≡ (1016, 1056))
accessors_find_sections_example =
    accessors_find_sections lp64 wide 1004 1260 placed refl (omega arith) roomy placed-IsLaidOut

abbrev at_1000 : Allocator
at_1000 call size = 1000

-- An allocator with no alignment at all.
abbrev at_1003 : Allocator
at_1003 call size = 1003

at_1003-IsAllocator : IsAllocator wide at_1003
at_1003-IsAllocator = record {
  pos = omega arith;
  first_pos = omega arith;
  first_far = omega arith;
  second_pos = omega arith;
  second_far = omega arith;
}

allocate_section-IsAllocated_example :
    (address : ℕ) × (allocate_section wide at_1003 3 ≡ section 4 address)
    × IsAllocated wide at_1003 address
allocate_section-IsAllocated_example =
    allocate_section-IsAllocated wide at_1003 3 at_1003-IsAllocator

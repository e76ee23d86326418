-- ===== src/Layout/Found.antt =====
-- The sections that the allocation placed, and the sections that the accessors find.
use native.Mathlib.Nat.{mod-one}
use sol.Base.{ℕ, ◌+◌, ◌<◌, ◌≡◌, ◌≢◌, refl, arith, false, true, inl, inr, Bool-cases, ltb, sym, ◌∙◌}
use sol.Layout.Align.{TypeLayout, word, wrap, max_size, align}
use sol.Layout.Rounding.{round_up, round_up_bounds, round_up_self, align-fits}
use sol.Layout.Allocate.{Platform, Allocator, use_align}
use sol.Layout.Unique.{Sections, allocated, usertype_unique_allocate}
use sol.Layout.Unique.Laid.{IsRoomy, IsLaidOut}
use sol.Layout.Access.{
  unique_destruct, usertype_unique_alloc_destroy, align_or_keep, align_usertype_pointer,
  align_usertype_unique_destructor, align_usertype_unique_tag, align_usertype_unique,
}

module _ (p : Platform) (on : p.memory_alignment ≡ true) where
  align-max :
      (t : TypeLayout) (ptr : ℕ)
      → 0 < t.alignment
      → ptr + t.size + t.alignment < word
      → (align t.alignment t.size ptr max_size).result ≡ round_up t.alignment ptr
  align-max t ptr pos far =
      let bounds = round_up_bounds t.alignment pos ptr in
      rw (align-fits t.alignment t.size ptr max_size pos far (omega arith) (omega (arith, bounds)))

  align_or_keep-round_up :
      (t : TypeLayout) (ptr : ℕ)
      → 0 < t.alignment
      → ptr + t.size + t.alignment < word
      → align_or_keep p t ptr ≡ round_up t.alignment ptr
  unfolding align_or_keep use_align
  align_or_keep-round_up t ptr pos far = elim (Bool-cases (ltb 1 t.alignment)) [
    | inl h ↦ rw (on, h) (align-max t ptr pos far)
    | inr h ↦
        let one : t.alignment ≡ 1 = ground arith in
        let same : round_up t.alignment ptr ≡ ptr =
          round_up_self t.alignment pos ptr (rw one (mod-one ptr)) in
        rw (on, h) (sym same)
  ]

  module _ (real : TypeLayout) (base end : ℕ) (s : Sections) (v : IsRoomy p real end)
      (laid : IsLaidOut p real base end s) (wide : 1 < p.unique_destructor.alignment) where
    finds_pointer : align_usertype_pointer p base ≡ s.pointer_adjusted
    unfolding align_usertype_pointer
    finds_pointer =
        align_or_keep-round_up p.pointer base v.pointer_pos (omega arith) ∙ sym laid.pointer_at

    finds_dx : align_usertype_unique_destructor p false false base ≡ s.dx_adjusted
    unfolding align_usertype_unique_destructor use_align
    finds_dx =
        let near : wrap (s.pointer_adjusted + p.pointer.size)
            ≡ s.pointer_adjusted + p.pointer.size =
          omega arith in
        let aligning : ltb 1 p.unique_destructor.alignment ≡ true = ground arith in
        rw (finds_pointer, near)
          (simp (on, aligning)
            (align-max p.unique_destructor (s.pointer_adjusted + p.pointer.size) v.dx_pos
                (omega arith)
              ∙ sym laid.dx_at))

    finds_id : align_usertype_unique_tag p false false base ≡ s.id_adjusted
    unfolding align_usertype_unique_tag
    finds_id =
        let near : wrap (s.dx_adjusted + p.unique_destructor.size)
            ≡ s.dx_adjusted + p.unique_destructor.size =
          omega arith in
        rw (finds_dx, near)
          (align_or_keep-round_up p.unique_tag (s.dx_adjusted + p.unique_destructor.size) v.tag_pos
              (omega arith)
            ∙ sym laid.id_at)

    finds_data : align_usertype_unique p real false false base ≡ s.data_adjusted
    unfolding align_usertype_unique
    finds_data =
        let near : wrap (s.id_adjusted + p.unique_tag.size) ≡ s.id_adjusted + p.unique_tag.size =
          omega arith in
        rw (finds_id, near)
          (align_or_keep-round_up real (s.id_adjusted + p.unique_tag.size) v.real_pos (omega arith)
            ∙ sym laid.data_at)

    destroys_data : unique_destruct p real base ≡ (s.dx_adjusted, s.data_adjusted)
    unfolding unique_destruct usertype_unique_alloc_destroy align_usertype_unique
        align_usertype_unique_tag
    destroys_data =
        let near : wrap (s.dx_adjusted + p.unique_destructor.size)
            ≡ s.dx_adjusted + p.unique_destructor.size =
          omega arith in
        let near' : wrap (s.id_adjusted + p.unique_tag.size) ≡ s.id_adjusted + p.unique_tag.size =
          omega arith in
        let id =
          align_or_keep-round_up p.unique_tag (s.dx_adjusted + p.unique_destructor.size) v.tag_pos
            (omega arith)
          ∙ sym laid.id_at in
        let data' =
          align_or_keep-round_up real (s.id_adjusted + p.unique_tag.size) v.real_pos (omega arith)
          ∙ sym laid.data_at in
        rw (finds_dx, near, id, near', data')

-- Where alignment is on and destructor pointers need it, the accessors find from the block's address
-- each of the four sections at the address at which the allocation placed it, and the destruction reads
-- the destructor there and destroys the data there.
pub accessors_find_sections :
    (p : Platform) (real : TypeLayout) (base end : ℕ) (s : Sections)
    → p.memory_alignment ≡ true
    → 1 < p.unique_destructor.alignment
    → IsRoomy p real end
    → IsLaidOut p real base end s
    → (align_usertype_pointer p base ≡ s.pointer_adjusted)
      × (align_usertype_unique_destructor p false false base ≡ s.dx_adjusted)
      × (align_usertype_unique_tag p false false base ≡ s.id_adjusted)
      × (align_usertype_unique p real false false base ≡ s.data_adjusted)
      × (unique_destruct p real base ≡ (s.dx_adjusted, s.data_adjusted))
accessors_find_sections p real base end s on wide v laid = (
  finds_pointer p on real base end s v laid wide,
  finds_dx p on real base end s v laid wide,
  finds_id p on real base end s v laid wide,
  finds_data p on real base end s v laid wide,
  destroys_data p on real base end s v laid wide,
)

-- Without alignment the sections are packed, and the accessor adds two pointers.
packed_sections :
    (p : Platform) (real : TypeLayout) (newuserdata : Allocator) (top top' : ℕ) (s : Sections)
    → p.memory_alignment ≡ false
    → usertype_unique_allocate p real newuserdata top ≡ allocated top' s
    → s.dx_adjusted ≡ wrap (s.pointer_adjusted + p.pointer.size)
unfolding usertype_unique_allocate use_align
packed_sections p real newuserdata top top' s off e = ground arith

unaligned_accessor :
    (p : Platform) (ptr : ℕ)
    → p.memory_alignment ≡ false
    → align_usertype_unique_destructor p false false ptr
      ≡ wrap (wrap (ptr + p.pointer.size) + p.pointer.size)
unfolding align_usertype_unique_destructor align_usertype_pointer align_or_keep use_align
unaligned_accessor p ptr off = simp off refl

-- Where alignment is off, the accessor of the destructor goes one pointer too far: it returns another
-- address than the one at which the allocation placed the destructor.
pub packed_destructor_missed :
    (p : Platform) (real : TypeLayout) (newuserdata : Allocator) (top top' : ℕ) (s : Sections)
    → p.memory_alignment ≡ false
    → 0 < p.pointer.size
    → s.pointer_adjusted + p.pointer.size + p.pointer.size < word
    → usertype_unique_allocate p real newuserdata top ≡ allocated top' s
    → align_usertype_unique_destructor p false false s.pointer_adjusted ≢ s.dx_adjusted
packed_destructor_missed p real newuserdata top top' s off pos far e hit = omega (
  arith,
  hit,
  packed_sections p real newuserdata top top' s off e,
  unaligned_accessor p s.pointer_adjusted off,
)

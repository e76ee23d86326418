-- ===== src/Layout/Retry.antt =====
-- Blocks with one section: the second attempt is large enough for any address.
use native.Mathlib.Nat.{zero-mod, mod_self, mod-eq_of_lt}
use sol.Base.{
  ℕ, ◌+◌, ◌-◌, ◌<◌, ◌≤◌, ◌≡◌, refl, arith, [], ◌∷◌, false, ◌⊎◌, inl, inr, Bool-cases, ltb, ◌==◌,
}
use sol.Layout.Align.{
  TypeLayout, word, max_size, nullptr, align, align_one, align_each, aligned_space_for,
}
use sol.Layout.Rounding.{
  IsAligned, round_up, round_up_bounds, round_up_self, round_up-IsAligned, round_up-least,
  align-fits,
}
use sol.Layout.Chain.{not_null-IsNext, fits-not_null}
use sol.Layout.Allocate.{Allocator, section, allocate_section}

multiple_pos : (a q : ℕ) → IsAligned a q → 0 < q → a ≤ q
multiple_pos a q e h = elim (Bool-cases (ltb q a)) [
  | inl l ↦ absurd (omega (arith, mod-eq_of_lt {n = q} {m = a} (ground arith)))
  | inr l ↦ ground arith
]

round_up-one : (a : ℕ) → 0 < a → round_up a 1 ≡ a
round_up-one a pos = omega (
  arith,
  round_up_bounds a pos 1,
  round_up-least a pos 1 a (mod_self a) pos,
  multiple_pos a (round_up a 1) (round_up-IsAligned a pos 1)
      (omega (arith, round_up_bounds a pos 1)),
)

module _ (t : TypeLayout) (pos : 0 < t.alignment) where
  -- The worst padding, which starting at 1 shows.
  space_from_one :
      1 + t.size + t.alignment < word → aligned_space_for (t ∷ []) 1 ≡ t.size + t.alignment - 1
  unfolding aligned_space_for align_one align_each
  space_from_one far =
      let up = round_up-one t.alignment pos in
      let fits =
        align-fits t.alignment t.size 1 max_size pos (omega arith) (omega arith)
          (omega (arith, up)) in
      rw (fits, up) (omega arith)

  space_from_null : t.size + t.alignment < word → aligned_space_for (t ∷ []) nullptr ≡ t.size
  unfolding aligned_space_for align_one align_each
  space_from_null far =
      let up = round_up_self t.alignment pos 0 (zero-mod t.alignment) in
      let fits =
        align-fits t.alignment t.size 0 max_size pos (omega arith) (omega arith)
          (omega (arith, up)) in
      rw (fits, up) (omega arith)

-- The address that a call of the allocator returned, and the block that it was asked for.
abbrev pub block_size : TypeLayout → ℕ → ℕ
block_size t first = aligned_space_for (t ∷ []) first

-- A section of the type's size at an aligned address in one of the two blocks.
pub record IsAllocated (t : TypeLayout) (newuserdata : Allocator) (address : ℕ) : Type 0 where
  pub aligned : IsAligned t.alignment address
  pub in_block :
      ((newuserdata 0 (block_size t 0) ≤ address)
        × (address + t.size ≤ newuserdata 0 (block_size t 0) + block_size t 0))
      ⊎ ((newuserdata 1 (block_size t 1) ≤ address)
          × (address + t.size ≤ newuserdata 1 (block_size t 1) + block_size t 1))

-- Blocks are not at the address 0, and stay away from the end of the address space.
pub record IsAllocator (t : TypeLayout) (newuserdata : Allocator) : Type 0 where
  pub pos : 0 < t.alignment
  pub first_pos : 0 < newuserdata 0 (block_size t 0)
  pub first_far : newuserdata 0 (block_size t 0) + t.size + t.size + t.alignment < word
  pub second_pos : 0 < newuserdata 1 (block_size t 1)
  pub second_far :
      newuserdata 1 (block_size t 1) + t.size + t.size + t.alignment + t.alignment < word

module _ (t : TypeLayout) (nu : Allocator) (v : IsAllocator t nu) where
  first_placed :
      ((align t.alignment t.size (nu 0 (block_size t 0)) (block_size t 0)).result == nullptr)
        ≡ false
      → IsAllocated t nu (align t.alignment t.size (nu 0 (block_size t 0)) (block_size t 0)).result
  first_placed e =
      let size = space_from_null t v.pos (omega (arith, v.first_far)) in
      let n =
        not_null-IsNext t (nu 0 (block_size t 0)) (block_size t 0) _ v.pos refl
          (omega (arith, v.first_far, size)) e in
      record {
        aligned = rw n.at (round_up-IsAligned t.alignment v.pos _);
        in_block = inl (n.from_start, n.to_end);
      }

  second_placed :
      (((align t.alignment t.size (nu 1 (block_size t 1)) (block_size t 1)).result == nullptr)
        ≡ false)
      × IsAllocated t nu (align t.alignment t.size (nu 1 (block_size t 1)) (block_size t 1)).result
  second_placed =
      let size = space_from_one t v.pos (omega (arith, v.second_far)) in
      let start = nu 1 (block_size t 1) in
      let bounds = round_up_bounds t.alignment v.pos start in
      let far = v.second_far in
      let placed =
        fits-not_null t start (block_size t 1) (start + block_size t 1) v.pos refl
          (omega (arith, size, far)) v.second_pos (omega (arith, size, bounds)) in
      let n =
        not_null-IsNext t start (block_size t 1) (start + block_size t 1) v.pos refl
          (omega (arith, size, far)) placed in
      (
        placed,
        record {
          aligned = rw n.at (round_up-IsAligned t.alignment v.pos _);
          in_block = inr (n.from_start, n.to_end);
        },
      )

-- The allocation of a block for one type never ends in the error: whatever addresses the allocator
-- gives, one of the two attempts finds an aligned address with room for the type in its block, and
-- leaves one userdata on the stack.
pub allocate_section-IsAllocated :
    (t : TypeLayout) (newuserdata : Allocator) (top : ℕ)
    → IsAllocator t newuserdata
    → (address : ℕ) × (allocate_section t newuserdata top ≡ section (top + 1) address)
      × IsAllocated t newuserdata address
allocate_section-IsAllocated t nu top v =
    let first = (align t.alignment t.size (nu 0 (block_size t 0)) (block_size t 0)).result in
    let second = (align t.alignment t.size (nu 1 (block_size t 1)) (block_size t 1)).result in
    elim (Bool-cases (first == nullptr)) [
      | inl z ↦
          let (placed, there) = second_placed t nu v in
          (second, unfold allocate_section in rw (z, placed), there)
      | inr z ↦ (first, unfold allocate_section in rw z, first_placed t nu v z)
    ]

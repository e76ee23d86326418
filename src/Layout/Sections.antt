-- ===== src/Layout/Sections.antt =====
-- What one call of `align` promises.
use sol.Base.{ℕ, ◌+◌, ◌<◌, ◌≤◌, ◌≡◌, refl, arith, leb, ◌⊎◌, inl, inr, Bool-cases}
use sol.Layout.Align.{Aligned, word, nullptr, align}
use sol.Layout.Rounding.{
  IsAligned, round_up, round_up-IsAligned, round_up_bounds, round_up-least, align-fits, align-full,
}

-- The section was placed: aligned, in the block, at the first place possible, and `space` is what is
-- left of the block from there on.
pub record IsPlaced (a size ptr space : ℕ) (r : Aligned) : Type 0 where
  pub aligned : IsAligned a r.result
  pub from_start : ptr ≤ r.result
  pub to_end : r.result + size ≤ ptr + space
  pub first : (q : ℕ) → IsAligned a q → ptr ≤ q → r.result ≤ q
  pub moved : r.cursor.ptr ≡ r.result
  pub left : r.result + r.cursor.space ≡ ptr + space

-- No aligned address leaves enough room, and the arguments are as they were.
pub record IsRefused (a size ptr space : ℕ) (r : Aligned) : Type 0 where
  pub null : r.result ≡ nullptr
  pub no_room : (q : ℕ) → IsAligned a q → ptr ≤ q → ptr + space < q + size
  pub same_ptr : r.cursor.ptr ≡ ptr
  pub same_space : r.cursor.space ≡ space

-- `align` finds the first aligned place for the section in the block, and returns `nullptr` only if
-- there is none. The block and one alignment more must not reach the end of the address space.
pub align_correct :
    (a size ptr space : ℕ)
    → 0 < a
    → ptr + size + a < word
    → space < word
    → IsPlaced a size ptr space (align a size ptr space)
      ⊎ IsRefused a size ptr space (align a size ptr space)
align_correct a size ptr space pos h k =
    elim (Bool-cases (leb (round_up a ptr + size) (ptr + space))) [
      | inl t ↦
          let fits = align-fits a size ptr space pos h k (ground arith) in
          inl (
            rw fits (record {
              aligned = round_up-IsAligned a pos ptr;
              from_start = (round_up_bounds a pos ptr).0;
              to_end = ground arith;
              first = λ q e l. round_up-least a pos ptr q e l;
              moved = refl;
              left = ground arith;
            }))
      | inr f ↦
          let full = align-full a size ptr space pos h k (ground arith) in
          inr (record {
            null = full.0;
            no_room = λ q e l. ground (arith, round_up-least a pos ptr q e l);
            same_ptr = full.1;
            same_space = full.2;
          })
    ]

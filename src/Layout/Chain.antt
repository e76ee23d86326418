-- ===== src/Layout/Chain.antt =====
-- One section after another in a block that ends at `end`.
use sol.Base.{ℕ, ◌+◌, ◌-◌, ◌<◌, ◌≤◌, ◌≡◌, refl, arith, ◌==◌, leb, false, inl, inr, Bool-cases}
use sol.Layout.Align.{TypeLayout, Aligned, word, wrap, nullptr, align}
use sol.Layout.Rounding.{round_up, round_up_bounds, align-fits, align-full}

-- The section `t` was placed from `ptr` on, and the next section starts behind it.
pub record IsNext (t : TypeLayout) (ptr end : ℕ) (r : Aligned) : Type 0 where
  pub at : r.result ≡ round_up t.alignment ptr
  pub from_start : ptr ≤ r.result
  pub to_end : r.result + t.size ≤ end
  pub next_ptr : wrap (r.result + t.size) ≡ r.result + t.size
  pub next_room : wrap (r.cursor.space + word - t.size) ≡ end - (r.result + t.size)

module _ (t : TypeLayout) (ptr space end : ℕ) (pos : 0 < t.alignment) (block : ptr + space ≡ end)
    (bounded : end + t.size + t.alignment < word) where
  fits-IsNext :
      round_up t.alignment ptr + t.size ≤ end
      → IsNext t ptr end (align t.alignment t.size ptr space)
  fits-IsNext h =
      let fits =
        align-fits t.alignment t.size ptr space pos (omega arith) (omega arith) (omega arith) in
      let bounds = round_up_bounds t.alignment pos ptr in
      rw fits (record {
        at = refl;
        from_start = bounds.0;
        to_end = h;
        next_ptr = omega arith;
        next_room = omega (arith, bounds);
      })

  -- A result that is not null is a section in its place.
  pub not_null-IsNext :
      ((align t.alignment t.size ptr space).result == nullptr) ≡ false
      → IsNext t ptr end (align t.alignment t.size ptr space)
  not_null-IsNext e = elim (Bool-cases (leb (round_up t.alignment ptr + t.size) end)) [
    | inl h ↦ fits-IsNext (ground arith)
    | inr h ↦
        let full =
          align-full t.alignment t.size ptr space pos (omega arith) (omega arith) (ground arith) in
        absurd (ground (arith, full))
  ]

  -- A section that fits is placed, unless its place is the address 0.
  pub fits-not_null :
      0 < ptr
      → round_up t.alignment ptr + t.size ≤ end
      → ((align t.alignment t.size ptr space).result == nullptr) ≡ false
  fits-not_null h k = let n = fits-IsNext k in ground (arith, n.at, n.from_start)

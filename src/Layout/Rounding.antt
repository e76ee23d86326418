-- ===== src/Layout/Rounding.antt =====
-- `align` is rounding up to the next aligned address.
use native.Mathlib.Nat.{
  mod_self, mod-eq_of_lt, mod-lt, div-add-mod', mul-mod_left, mod-add-mod, sub-zero, zero-add,
}
use sol.Base.{ℕ, ◌+◌, ◌-◌, ◌*◌, ◌/◌, ◌%◌, ◌<◌, ◌≤◌, ◌≡◌, arith, ◌⊎◌, inl, inr, sym, ◌∙◌}
use sol.Layout.Align.{Aligned, word, nullptr, padding_of, align, align_required}

abbrev pub IsAligned : ℕ → ℕ → Type 0
IsAligned a p = p % a ≡ 0

-- The first aligned address from `p` on.
unfoldable pub round_up : ℕ → ℕ → ℕ
round_up a p = p + padding_of a p

zero_or_pos : (n : ℕ) → (n ≡ 0) ⊎ (0 < n)
zero_or_pos n = grind arith

module _ (a : ℕ) (pos : 0 < a) where
  pub round_up_self : (p : ℕ) → IsAligned a p → round_up a p ≡ p
  unfolding round_up
  round_up_self p e = rw (e, sub-zero, mod_self) (omega arith)

  round_up_next : (p : ℕ) → 0 < p % a → round_up a p ≡ (p / a + 1) * a
  unfolding round_up
  round_up_next p h = omega (
    arith,
    mod-lt p pos,
    mod-eq_of_lt {n = a - p % a} {m = a} (omega (arith, mod-lt p pos)),
    div-add-mod' p a,
  )

  pub round_up-IsAligned : (p : ℕ) → IsAligned a (round_up a p)
  round_up-IsAligned p = elim (zero_or_pos (p % a)) [
    | inl e ↦ rw (round_up_self p e) e
    | inr h ↦ rw (round_up_next p h) (mul-mod_left (p / a + 1) a)
  ]

  -- Rounding adds less than the alignment.
  pub round_up_bounds : (p : ℕ) → (p ≤ round_up a p) × (round_up a p < p + a)
  unfolding round_up
  round_up_bounds p = omega (arith, mod-lt (a - p % a) pos)

  pub round_up-least : (p q : ℕ) → IsAligned a q → p ≤ q → round_up a p ≤ q
  round_up-least p q e h = elim (zero_or_pos (p % a)) [
    | inl z ↦ omega (arith, round_up_self p z)
    | inr z ↦
        let multiple : q / a * a ≡ q = omega (arith, div-add-mod' q a) in
        let more : p / a < q / a = grind (arith, div-add-mod' p a, multiple) in
        grind (arith, round_up_next p z, multiple)
  ]

  pub round_up-shift : (b x : ℕ) → IsAligned a b → round_up a (b + x) ≡ b + round_up a x
  unfolding round_up
  round_up-shift b x e =
      let same : (b + x) % a ≡ x % a = sym (mod-add-mod b a x) ∙ rw (e, zero-add) in
      rw same (omega arith)

-- With no overflow `align` gives the rounded address if the section fits behind it.
module _ (a size ptr space : ℕ) (pos : 0 < a) (no_overflow : ptr + size + a < word)
    (in_word : space < word) where
  abbrev pub fitted : Aligned
  fitted = record {
    result = round_up a ptr;
    cursor = record {
      ptr = round_up a ptr;
      space = ptr + space - round_up a ptr;
      required_space = size + padding_of a ptr;
    };
  }

  pub align-fits : round_up a ptr + size ≤ ptr + space → align a size ptr space ≡ fitted
  unfolding align align_required round_up
  align-fits h = ground (arith, round_up_bounds a pos ptr)

  pub align-full :
      ptr + space < round_up a ptr + size
      → ((align a size ptr space).result ≡ nullptr)
        × ((align a size ptr space).cursor.ptr ≡ ptr)
        × ((align a size ptr space).cursor.space ≡ space)
  unfolding align align_required round_up
  align-full h = ground (arith, round_up_bounds a pos ptr)

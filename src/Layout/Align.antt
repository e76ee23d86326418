-- ===== src/Layout/Align.antt =====
-- stack_core.hpp: `align`, `align_one` and `aligned_space_for`.
use sol.Base.{ℕ, ◌+◌, ◌-◌, ◌%◌, ◌^◌, List, [], ◌∷◌, ltb, if◌then◌else◌}

-- `std::uintptr_t` and `std::size_t`.
abbrev pub word : ℕ
word = 2 ^ 64

abbrev pub wrap : ℕ → ℕ
wrap n = n % word

-- `std::numeric_limits<std::size_t>::max()`.
abbrev pub max_size : ℕ
max_size = word - 1

abbrev pub nullptr : ℕ
nullptr = 0

-- `alignment_of` and `sizeof` of a type.
pub record TypeLayout : Type 0 where
  pub alignment : ℕ
  pub size : ℕ

-- The arguments that `align` takes by reference.
pub record Cursor : Type 0 where
  pub ptr : ℕ
  pub space : ℕ
  pub required_space : ℕ

pub record Aligned : Type 0 where
  pub result : ℕ
  pub cursor : Cursor

abbrev pub padding_of : ℕ → ℕ → ℕ
padding_of alignment ptr = let offby = ptr % alignment in (alignment - offby) % alignment

unfoldable pub align_required : ℕ → ℕ → Cursor → Aligned
align_required alignment size c =
    let padding = padding_of alignment c.ptr in
    let required_space = wrap (c.required_space + (size + padding)) in
    if ltb c.space required_space
    then record { result = nullptr; cursor = record c { required_space = required_space } }
    else let ptr = wrap (c.ptr + padding) in
      record {
        result = ptr;
        cursor = record {
          ptr = ptr;
          space = wrap (c.space + word - padding);
          required_space = required_space;
        };
      }

-- The overload with no `required_space`.
unfoldable pub align : ℕ → ℕ → ℕ → ℕ → Aligned
align alignment size ptr space =
    align_required alignment size (record { ptr = ptr; space = space; required_space = 0 })

unfoldable pub align_one : ℕ → ℕ → ℕ → ℕ
align_one a s target_alignment = wrap ((align a s target_alignment max_size).result + s)

unfoldable pub align_each : List TypeLayout → ℕ → ℕ
align_each [] alignment = alignment
align_each (t ∷ ts) alignment = align_each ts (align_one t.alignment t.size alignment)

unfoldable pub aligned_space_for : List TypeLayout → ℕ → ℕ
unfolding align_each
aligned_space_for ts start = wrap (align_each ts start + word - start)

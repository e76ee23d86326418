-- ===== src/Layout/Access.antt =====
-- stack_core.hpp: the addresses of the sections, computed from the address of the block. The
-- template arguments `pre_aligned` and `pre_shifted` are `Bool` arguments.
use sol.Base.{ℕ, ◌+◌, [], ◌∷◌, Bool, true, false, not, if◌then◌else◌}
use sol.Layout.Align.{TypeLayout, wrap, max_size, align}
use sol.Layout.Allocate.{Platform, use_align}

module _ (p : Platform) where
  -- The last step of each function.
  unfoldable pub align_or_keep : TypeLayout → ℕ → ℕ
  align_or_keep t ptr =
      if not (use_align p (t ∷ [])) then ptr else (align t.alignment t.size ptr max_size).result

  unfoldable pub align_usertype_pointer : ℕ → ℕ
  unfolding align_or_keep
  align_usertype_pointer ptr = align_or_keep p.pointer ptr

  -- Where alignment is off, the last step goes on by one more pointer.
  unfoldable pub align_usertype_unique_destructor : Bool → Bool → ℕ → ℕ
  align_usertype_unique_destructor pre_aligned pre_shifted ptr =
      let ptr1 = if not pre_aligned then align_usertype_pointer ptr else ptr in
      let ptr2 = if not pre_shifted then wrap (ptr1 + p.pointer.size) else ptr1 in
      if not (use_align p (p.unique_destructor ∷ []))
      then wrap (ptr2 + p.pointer.size)
      else (align p.unique_destructor.alignment p.unique_destructor.size ptr2 max_size).result

  unfoldable pub align_usertype_unique_tag : Bool → Bool → ℕ → ℕ
  unfolding align_or_keep
  align_usertype_unique_tag pre_aligned pre_shifted ptr =
      let ptr1 =
        if not pre_aligned then align_usertype_unique_destructor false false ptr else ptr in
      let ptr2 = if not pre_shifted then wrap (ptr1 + p.unique_destructor.size) else ptr1 in
      align_or_keep p.unique_tag ptr2

  unfoldable pub align_usertype_unique : TypeLayout → Bool → Bool → ℕ → ℕ
  unfolding align_or_keep
  align_usertype_unique t pre_aligned pre_shifted ptr =
      let ptr1 = if not pre_aligned then align_usertype_unique_tag false false ptr else ptr in
      let ptr2 = if not pre_shifted then wrap (ptr1 + p.unique_tag.size) else ptr1 in
      align_or_keep t ptr2

  unfoldable pub align_user : TypeLayout → ℕ → ℕ
  unfolding align_or_keep
  align_user t ptr = align_or_keep t ptr

  -- `usertype_unique_alloc_destroy`: the object that it destroys, from the address of the tag.
  unfoldable pub usertype_unique_alloc_destroy : TypeLayout → ℕ → ℕ
  usertype_unique_alloc_destroy real memory = align_usertype_unique real true false memory

  -- `unique_destruct`: the address that the destructor is read from, and the object that this
  -- destructor, `usertype_unique_alloc_destroy`, destroys.
  unfoldable pub unique_destruct : TypeLayout → ℕ → ℕ × ℕ
  unique_destruct real memory =
      let dx = align_usertype_unique_destructor false false memory in
      (dx, usertype_unique_alloc_destroy real (align_usertype_unique_tag true false dx))

  -- `usertype_alloc_destruct` and `user_alloc_destruct`: the object destroyed. `load` reads a pointer.
  unfoldable pub usertype_alloc_destruct : (ℕ → ℕ) → ℕ → ℕ
  usertype_alloc_destruct load memory = load (align_usertype_pointer memory)

  unfoldable pub user_alloc_destruct : TypeLayout → ℕ → ℕ
  user_alloc_destruct t memory = align_user t memory

-- ===== src/Layout/Unique/Laid.antt =====
-- A successful attempt places the four sections one behind another in the block.
use sol.Base.{◌∙◌, ℕ, ◌+◌, ◌-◌, ◌<◌, ◌≤◌, ◌≡◌, refl, arith, ◌==◌, false, true, inl, inr, Bool-cases}
use sol.Layout.Align.{TypeLayout, Aligned, word, nullptr, align}
use sol.Layout.Rounding.{round_up}
use sol.Layout.Chain.{IsNext, not_null-IsNext}
use sol.Layout.Allocate.{Platform}
use sol.Layout.Unique.{
  Sections, UniqueAttempt, attempt_data, attempt_id, attempt_dx, attempt_alloc_unique,
}

-- The alignments are positive, and a block that ends at `end` keeps away from the end of the
-- address space by more than any section and its padding.
pub record IsRoomy (p : Platform) (real : TypeLayout) (end : ℕ) : Type 0 where
  pub pointer_pos : 0 < p.pointer.alignment
  pub dx_pos : 0 < p.unique_destructor.alignment
  pub tag_pos : 0 < p.unique_tag.alignment
  pub real_pos : 0 < real.alignment
  pub pointer_far : end + p.pointer.size + p.pointer.alignment < word
  pub dx_far : end + p.unique_destructor.size + p.unique_destructor.alignment < word
  pub tag_far : end + p.unique_tag.size + p.unique_tag.alignment < word
  pub real_far : end + real.size + real.alignment < word

abbrev succeeded : ℕ → Sections → UniqueAttempt
succeeded top s = record { result = true; top = top + 1; sections = s }

-- The four sections, each at the first aligned address behind the one before.
pub record IsLaidOut (p : Platform) (real : TypeLayout) (base end : ℕ) (s : Sections) : Type 0 where
  pub pointer_at : s.pointer_adjusted ≡ round_up p.pointer.alignment base
  pub dx_at :
      s.dx_adjusted ≡ round_up p.unique_destructor.alignment (s.pointer_adjusted + p.pointer.size)
  pub id_at :
      s.id_adjusted ≡ round_up p.unique_tag.alignment (s.dx_adjusted + p.unique_destructor.size)
  pub data_at : s.data_adjusted ≡ round_up real.alignment (s.id_adjusted + p.unique_tag.size)
  pub from_base : base ≤ s.pointer_adjusted
  pub pointer_dx : s.pointer_adjusted + p.pointer.size ≤ s.dx_adjusted
  pub dx_id : s.dx_adjusted + p.unique_destructor.size ≤ s.id_adjusted
  pub id_data : s.id_adjusted + p.unique_tag.size ≤ s.data_adjusted
  pub data_end : s.data_adjusted + real.size ≤ end

module _ (p : Platform) (real : TypeLayout) (end : ℕ) (v : IsRoomy p real end) (top : ℕ) where
  abbrev place : TypeLayout → ℕ → Aligned
  place t ptr = align t.alignment t.size ptr (end - ptr)

  attempt_data-laid :
      (s : Sections) (ptr : ℕ)
      → ptr ≤ end
      → (attempt_data real top s ptr (end - ptr)).result ≡ true
      → IsNext real ptr end (place real ptr)
        × (attempt_data real top s ptr (end - ptr)
            ≡ succeeded top (record s { data_adjusted = (place real ptr).result }))
  attempt_data-laid s ptr h e = elim (Bool-cases ((place real ptr).result == nullptr)) [
    | inl z ↦ absurd (unfold attempt_data in ground arith)
    | inr z ↦ (
      not_null-IsNext real ptr (end - ptr) end v.real_pos (omega arith) v.real_far z,
      unfold attempt_data in rw z,
    )
  ]

  -- A section that is placed hands the rest of the block on to the next one.
  attempt_id-next :
      (s : Sections) (ptr : ℕ)
      → ptr ≤ end
      → ((place p.unique_tag ptr).result == nullptr) ≡ false
      → let id = (place p.unique_tag ptr).result in
        let next = id + p.unique_tag.size in
        IsNext p.unique_tag ptr end (place p.unique_tag ptr)
        × (attempt_id p real top s ptr (end - ptr)
            ≡ attempt_data real top (record s { id_adjusted = id }) next (end - next))
  attempt_id-next s ptr h z =
      let n =
        not_null-IsNext p.unique_tag ptr (end - ptr) end v.tag_pos (omega arith) v.tag_far z in
      (n, unfold attempt_id in rw (z, n.next_ptr, n.next_room))

  attempt_dx-next :
      (s : Sections) (ptr : ℕ)
      → ptr ≤ end
      → ((place p.unique_destructor ptr).result == nullptr) ≡ false
      → let dx = (place p.unique_destructor ptr).result in
        let next = dx + p.unique_destructor.size in
        IsNext p.unique_destructor ptr end (place p.unique_destructor ptr)
        × (attempt_dx p real top s ptr (end - ptr)
            ≡ attempt_id p real top (record s { dx_adjusted = dx }) next (end - next))
  attempt_dx-next s ptr h z =
      let n =
        not_null-IsNext p.unique_destructor ptr (end - ptr) end v.dx_pos (omega arith) v.dx_far z in
      (n, unfold attempt_dx in rw (z, n.next_ptr, n.next_room))

  attempt_alloc_unique-next :
      (s : Sections) (base : ℕ)
      → base ≤ end
      → ((place p.pointer base).result == nullptr) ≡ false
      → let pointer = (place p.pointer base).result in
        let next = pointer + p.pointer.size in
        IsNext p.pointer base end (place p.pointer base)
        × (attempt_alloc_unique p p.pointer real base top (end - base) s
            ≡ attempt_dx p real top (record s { pointer_adjusted = pointer }) next (end - next))
  attempt_alloc_unique-next s base h z =
      let n =
        not_null-IsNext p.pointer base (end - base) end v.pointer_pos (omega arith) v.pointer_far
          z in
      (n, unfold attempt_alloc_unique in rw (z, n.next_ptr, n.next_room))

  -- What the sections from the tag on are, after a success.
  record IsLaidFromId (ptr : ℕ) (before after : Sections) : Type 0 where
    same_pointer : after.pointer_adjusted ≡ before.pointer_adjusted
    same_dx : after.dx_adjusted ≡ before.dx_adjusted
    id_at : after.id_adjusted ≡ round_up p.unique_tag.alignment ptr
    id_from : ptr ≤ after.id_adjusted
    data_at : after.data_adjusted ≡ round_up real.alignment (after.id_adjusted + p.unique_tag.size)
    data_from : after.id_adjusted + p.unique_tag.size ≤ after.data_adjusted
    data_end : after.data_adjusted + real.size ≤ end

  attempt_id-laid :
      (s : Sections) (ptr : ℕ)
      → ptr ≤ end
      → (attempt_id p real top s ptr (end - ptr)).result ≡ true
      → IsLaidFromId ptr s (attempt_id p real top s ptr (end - ptr)).sections
        × ((attempt_id p real top s ptr (end - ptr)).top ≡ top + 1)
  attempt_id-laid s ptr h e = elim (Bool-cases ((place p.unique_tag ptr).result == nullptr)) [
    | inl z ↦ absurd (unfold attempt_id in ground arith)
    | inr z ↦
        let (n, step) = attempt_id-next s ptr h z in
        let id = (place p.unique_tag ptr).result in
        let (d, done) =
          attempt_data-laid (record s { id_adjusted = id }) (id + p.unique_tag.size) n.to_end
            (rw step at e) in
        rw (step, done)
          (
            record {
              same_pointer = refl;
              same_dx = refl;
              id_at = n.at;
              id_from = n.from_start;
              data_at = d.at;
              data_from = d.from_start;
              data_end = d.to_end;
            },
            refl,
          )
  ]

  record IsLaidFromDx (ptr : ℕ) (before after : Sections) : Type 0 where
    same_pointer : after.pointer_adjusted ≡ before.pointer_adjusted
    dx_at : after.dx_adjusted ≡ round_up p.unique_destructor.alignment ptr
    dx_from : ptr ≤ after.dx_adjusted
    rest : IsLaidFromId (after.dx_adjusted + p.unique_destructor.size) after after

  attempt_dx-laid :
      (s : Sections) (ptr : ℕ)
      → ptr ≤ end
      → (attempt_dx p real top s ptr (end - ptr)).result ≡ true
      → IsLaidFromDx ptr s (attempt_dx p real top s ptr (end - ptr)).sections
        × ((attempt_dx p real top s ptr (end - ptr)).top ≡ top + 1)
  attempt_dx-laid s ptr h e =
      elim (Bool-cases ((place p.unique_destructor ptr).result == nullptr)) [
        | inl z ↦ absurd (unfold attempt_dx in ground arith)
        | inr z ↦
            let (n, step) = attempt_dx-next s ptr h z in
            let dx = (place p.unique_destructor ptr).result in
            let (l, done) =
              attempt_id-laid (record s { dx_adjusted = dx }) (dx + p.unique_destructor.size)
                n.to_end (rw step at e) in
            rw step (
              record {
                same_pointer = l.same_pointer;
                dx_at = l.same_dx ∙ n.at;
                dx_from = rw l.same_dx n.from_start;
                rest = record {
                  same_pointer = refl;
                  same_dx = refl;
                  id_at = rw l.same_dx l.id_at;
                  id_from = rw l.same_dx l.id_from;
                  data_at = l.data_at;
                  data_from = l.data_from;
                  data_end = l.data_end;
                };
              },
              done,
            )
      ]

-- An attempt that succeeds leaves one userdata on the stack and lays the pointer, the destructor,
-- the tag and the data out in the block: each section is the first aligned address behind the one
-- before it, none overlaps another, and all lie in the block.
pub attempt_alloc_unique-IsLaidOut :
    (p : Platform) (real : TypeLayout) (base end top : ℕ) (s : Sections)
    → IsRoomy p real end
    → base ≤ end
    → (attempt_alloc_unique p p.pointer real base top (end - base) s).result ≡ true
    → IsLaidOut p real base end
        (attempt_alloc_unique p p.pointer real base top (end - base) s).sections
      × ((attempt_alloc_unique p p.pointer real base top (end - base) s).top ≡ top + 1)
attempt_alloc_unique-IsLaidOut p real base end top s v h e =
    elim (Bool-cases ((place p real end v top p.pointer base).result == nullptr)) [
      | inl z ↦ absurd (unfold attempt_alloc_unique in ground arith)
      | inr z ↦
          let (n, step) = attempt_alloc_unique-next p real end v top s base h z in
          let pointer = (place p real end v top p.pointer base).result in
          let (l, done) =
            attempt_dx-laid p real end v top (record s { pointer_adjusted = pointer })
              (pointer + p.pointer.size) n.to_end (rw step at e) in
          rw step (
            record {
              pointer_at = l.same_pointer ∙ n.at;
              dx_at = rw l.same_pointer l.dx_at;
              id_at = l.rest.id_at;
              data_at = l.rest.data_at;
              from_base = rw l.same_pointer n.from_start;
              pointer_dx = rw l.same_pointer l.dx_from;
              dx_id = l.rest.id_from;
              id_data = l.rest.data_from;
              data_end = l.rest.data_end;
            },
            done,
          )
    ]

-- ===== src/Reference/World.antt =====
-- Programs over references: objects that are constructed, assigned, moved and destroyed in any order.
-- An object that is not alive is an empty reference.
use sol.Base.{ℕ, ◌≡◌, Option, none, some, Bool, true, false, ◌==◌, if◌then◌else◌}
use sol.Reference.Lua.{Lua}
use sol.Reference.Handle.{
  Reference, empty, copy_construct, move_construct, copy_assign, move_assign, from_index, destroy,
  assign_nil,
}
use sol.Reference.Effects.{is_slot, slot_of}
use sol.Reference.Ledger.{Keys, IsOwned}
use sol.Reference.Outcomes.{IsUsable}

pub record World (lua : Lua) : Type 0 where
  pub objects : ℕ → Reference
  pub state : lua.State

abbrev pub set : (ℕ → Reference) → ℕ → Reference → ℕ → Reference
set objects i r j = if i == j then r else objects j

abbrev pub in_use {ℓ} : {A : Type ℓ} → Option A → Bool
in_use none = false
in_use (some v) = true

module _ (lua : Lua) where
  abbrev pub own : (ℕ → Reference) → ℕ → Keys
  own objects i g k = is_slot (slot_of lua (objects i)) g k

  abbrev pub used : lua.State → Keys
  used s g k = in_use (lua.live s g k)

  -- Every key in use belongs to one object, every key of an object is in use, and an object with a key
  -- has a state.
  pub record IsValid (w : World lua) : Type 0 where
    pub owned : IsOwned (own w.objects) (used w.state)
    pub usable : (i : ℕ) → IsUsable (w.objects i)

  abbrev pub changed : World lua → ℕ → Reference × lua.State → World lua
  changed w i (r, s) = record { objects = set w.objects i r; state = s }

  abbrev pub changed_both : World lua → ℕ → ℕ → Reference × Reference × lua.State → World lua
  changed_both w i j (r, r', s) = record { objects = set (set w.objects j r') i r; state = s }

  -- One operation on the references.
  pub data Step (w : World lua) : World lua → Type 0 where
    made :
        (m : Bool) (i L : ℕ) (index : lua.Index)
        → w.objects i ≡ empty
        → (L == 0) ≡ false
        → Step w (changed w i (from_index lua m L index w.state))
    copied :
        (i j : ℕ)
        → (i == j) ≡ false
        → w.objects i ≡ empty
        → Step w (changed w i (copy_construct lua (w.objects j) w.state))
    moved :
        (i j : ℕ)
        → (i == j) ≡ false
        → w.objects i ≡ empty
        → Step w (
            changed_both w i j
              ((move_construct lua (w.objects j)).0, (move_construct lua (w.objects j)).1, w.state))
    copy_assigned :
        (m rm : Bool) (i j : ℕ)
        → (i == j) ≡ false
        → Step w (changed w i (copy_assign lua m rm (w.objects i) (w.objects j) w.state))
    move_assigned :
        (m rm : Bool) (i j : ℕ)
        → (i == j) ≡ false
        → Step w (changed_both w i j (move_assign lua m rm (w.objects i) (w.objects j) w.state))
    nil_assigned : (i : ℕ) → Step w (changed w i (assign_nil lua (w.objects i) w.state))
    destroyed : (i : ℕ) → Step w (changed w i (empty, destroy lua (w.objects i) w.state))

  pub data Reaches (w : World lua) : World lua → Type 0 where
    none_yet : Reaches w w
    one_more : {x u : World lua} → Reaches w x → Step x u → Reaches w u

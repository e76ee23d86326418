-- ===== src/Packing/Writing.antt =====
-- Arrays that are written by index.
use sol.Base.{ℕ, zero, suc, ◌≡◌, refl, List, [], ◌∷◌, ◌++◌, Option, none, some, length}

module _ {ℓ} {A : Type ℓ} where
  -- A write that is out of bounds has no defined result.
  abbrev pub write : ℕ → A → List A → Option (List A)
  write i v [] = none
  write zero v (x ∷ xs) = some (v ∷ xs)
  write (suc i) v (x ∷ xs) = elim (write i v xs) [ none ↦ none | some ys ↦ some (x ∷ ys) ]

  pub write-append :
      (done rest : List A) (x v : A)
      → write (length done) v (done ++ x ∷ rest) ≡ some (done ++ v ∷ rest)
  write-append [] rest x v = refl
  write-append (y ∷ done) rest x v = rw (write-append done rest x v) refl

abbrev pub and_then {ℓ κ} : {A : Type ℓ} {B : Type κ} → Option A → (A → Option B) → Option B
and_then none f = none
and_then (some a) f = f a

-- ===== src/Sequences/Search.antt =====
-- `find` and `index_of`: a search by comparison.
use sol.Base.{ℕ, suc, ◌+◌, Bool, if◌then◌else◌, Option, none, some, List, [], ◌∷◌}

module _ {A : Type 0} (equal : A → A → Bool) where
  -- The loop over the iterator and `idx`.
  unfoldable pub find_from : List A → A → ℕ → Option ℕ
  find_from [] value idx = none
  find_from (x ∷ rest) value idx =
      let later = find_from rest value (suc idx) in if equal value x then some idx else later

  -- `idx -= index_adjustment`, which is -1.
  unfoldable pub found_index : Option ℕ → Option ℕ
  found_index none = none
  found_index (some idx) = some (idx + 1)

  unfoldable pub find : List A → A → Option ℕ
  find self value = found_index (find_from self value 0)

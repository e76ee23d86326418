-- ===== src/Inheritance/Casts.antt =====
-- `detail::inheritance`. A qualified name is a number, since names are only compared. A pointer is a
-- number, and 0 is `nullptr`.
use sol.Base.{ℕ, Bool, false, not, ◌==◌, ◌||◌, if◌then◌else◌, List, [], ◌∷◌, Option, none, some}

-- A base class: its name, and what `static_cast<Base*>` makes of a pointer to the derived class.
pub record Base : Type 0 where
  pub qualified_name : ℕ
  pub to_base : ℕ → ℕ

pub record Class : Type 0 where
  pub qualified_name : ℕ
  pub bases : List Base

unfoldable pub type_check_bases : List Base → ℕ → Bool
type_check_bases [] ti = false
type_check_bases (b ∷ bs) ti = ti == b.qualified_name || type_check_bases bs ti

-- `type_check`, and `type_check_with` of the listed bases.
unfoldable pub type_check : Class → ℕ → Bool
type_check c ti = ti == c.qualified_name || type_check_bases c.bases ti

unfoldable pub type_cast_bases : List Base → ℕ → ℕ → ℕ
type_cast_bases [] object ti = 0
type_cast_bases (b ∷ bs) object ti =
    if not (ti == b.qualified_name) then type_cast_bases bs object ti else b.to_base object

-- `type_cast`, and `type_cast_with` of the listed bases.
unfoldable pub type_cast : Class → ℕ → ℕ → ℕ
type_cast c object ti =
    if not (ti == c.qualified_name) then type_cast_bases c.bases object ti else object

-- The result of a cast of a smart pointer, and the base that `*target` was converted to.
pub record UniqueCast : Type 0 where
  pub result : ℕ
  pub stored : Option Base

unfoldable pub type_unique_cast_bases : List Base → ℕ → ℕ → UniqueCast
type_unique_cast_bases [] target_data ti = record { result = 0; stored = none }
type_unique_cast_bases (b ∷ bs) target_data ti =
    if b.qualified_name == ti
    then record { result = 2; stored = if not (target_data == 0) then some b else none }
    else type_unique_cast_bases bs target_data ti

-- A kind of smart pointer: whether it can be rebound to bases, whether what it is rebound to is not
-- `void`, and the name of what it is rebound to.
pub record UniqueTraits : Type 0 where
  pub is_base_rebindable : Bool
  pub is_rebind_void : Bool
  pub rebind_name : ℕ

unfoldable pub type_unique_cast : UniqueTraits → Class → ℕ → ℕ → ℕ → UniqueCast
type_unique_cast u c target_data ti rebind_ti =
    let bases = if u.is_rebind_void then [] else c.bases in
    if u.is_base_rebindable
    then (if not (rebind_ti == u.rebind_name)
        then record { result = 0; stored = none }
        else if ti == c.qualified_name
        then record { result = 1; stored = none }
        else type_unique_cast_bases bases target_data ti)
    else if ti == c.qualified_name
    then record { result = 1; stored = none }
    else type_unique_cast_bases [] target_data ti

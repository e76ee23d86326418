-- ===== src/Overloads/Match.antt =====
-- `overload_match_arity` and the functions around it. What they decide from types when the program is
-- compiled and what they decide when it runs is decided here in the same order.
use sol.Base.{ℕ, ◌+◌, ◌-◌, Bool, false, not, ◌==◌, ◌&&◌, ◌||◌, if◌then◌else◌, List, [], ◌∷◌}

-- A function among the overloads: `traits::free_arity`, `traits::runtime_variadics_t`, and whether
-- `check_types` accepts the arguments that are on the stack.
pub record Candidate : Type 0 where
  pub free_arity : ℕ
  pub runtime_variadics : Bool
  pub accepts : Bool

-- The call of `matchfx` for the overload with an index, or the error.
pub data Result : Type 0 where
  matched : ℕ → Result
  no_match : Result

-- `meta::find_in_pack_v`
unfoldable pub find_in_pack : ℕ → List ℕ → Bool
find_in_pack n [] = false
find_in_pack n (m ∷ ms) = n == m || find_in_pack n ms

-- The indices of the overloads count up, so the first of them stands for them all. `ms` are the
-- arities that are known not to fit.
unfoldable pub overload_match_arity : List Candidate → ℕ → List ℕ → ℕ → Result
overload_match_arity [] i ms fxarity = no_match
overload_match_arity (fx ∷ fxs) i ms fxarity =
    let known = overload_match_arity fxs (i + 1) ms fxarity in
    let unfit = overload_match_arity fxs (i + 1) (fx.free_arity ∷ ms) fxarity in
    let refused = overload_match_arity fxs (i + 1) ms fxarity in
    if not fx.runtime_variadics && find_in_pack fx.free_arity ms
    then known
    else if not fx.runtime_variadics && not (fx.free_arity == fxarity)
    then unfit
    else if not fx.accepts
    then refused
    else matched i

-- A function that has no overloads is called without a check of its arguments' types.
unfoldable pub overload_match_arity_single : List Candidate → ℕ → List ℕ → ℕ → Result
overload_match_arity_single [] i ms fxarity = overload_match_arity [] i ms fxarity
overload_match_arity_single (fx ∷ []) i ms fxarity =
    if not fx.runtime_variadics && find_in_pack fx.free_arity ms
    then overload_match_arity [] (i + 1) ms fxarity
    else if not fx.runtime_variadics && not (fx.free_arity == fxarity)
    then overload_match_arity [] (i + 1) (fx.free_arity ∷ ms) fxarity
    else matched i
overload_match_arity_single (fx ∷ fx1 ∷ fxs) i ms fxarity =
    if not fx.runtime_variadics && find_in_pack fx.free_arity ms
    then overload_match_arity (fx1 ∷ fxs) (i + 1) ms fxarity
    else if not fx.runtime_variadics && not (fx.free_arity == fxarity)
    then overload_match_arity (fx1 ∷ fxs) (i + 1) (fx.free_arity ∷ ms) fxarity
    else if not fx.accepts
    then overload_match_arity (fx1 ∷ fxs) (i + 1) ms fxarity
    else matched i

-- `overload_match_arity` of all overloads.
unfoldable pub overload_match_all : List Candidate → ℕ → Result
overload_match_all fxs fxarity = overload_match_arity_single fxs 0 [] fxarity

unfoldable pub overload_match : List Candidate → ℕ → ℕ → Result
overload_match fxs top start = overload_match_all fxs (top - (start - 1))

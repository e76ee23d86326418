-- ===== src/Overloads/Examples.antt =====
-- Three overloads: one takes one argument, two take two, of which one has other types.
use sol.Base.{ℕ, ◌≡◌, ◌⊎◌, true, false, [], ◌∷◌, some, get_elem?}
use sol.Overloads.Match.{Candidate, matched, no_match, overload_match}
use sol.Overloads.Choice.{fits, IsChosen, overload_match-IsChosen}

abbrev one : Candidate
one = record { free_arity = 1; runtime_variadics = false; accepts = true }

abbrev two : Candidate
two = record { free_arity = 2; runtime_variadics = false; accepts = false }

abbrev another : Candidate
another = record { free_arity = 2; runtime_variadics = false; accepts = true }

overload_match-IsChosen_example :
    let all = one ∷ two ∷ another ∷ [] in
    ((n : ℕ) × (overload_match all 3 2 ≡ matched n) × IsChosen all 2 n)
    ⊎ ((overload_match all 3 2 ≡ no_match)
        × ((m : ℕ) (g : Candidate) → get_elem? all m ≡ some g → fits 2 g ≡ false))
overload_match-IsChosen_example = overload_match-IsChosen one two (another ∷ []) 3 2

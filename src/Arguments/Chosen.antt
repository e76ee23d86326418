-- ===== src/Arguments/Chosen.antt =====
-- Calls of overloaded functions with the arguments on the stack.
use sol.Base.{
  ℕ, zero, suc, ◌+◌, ◌-◌, ◌≤◌, ◌<◌, ◌≡◌, refl, sym, ap, ◌∙◌, arith, Bool, true, false, not, ◌&&◌,
  List, [], ◌∷◌, map, length, some, get_elem?, All, inl, inr,
}
use sol.Arguments.Types.{Value, ArgTypes, fresh, free_arity, runtime_variadics}
use sol.Arguments.Checking.{Checked, passed, refused, raised, check_types}
use sol.Arguments.Getting.{get_types}
use sol.Arguments.Safety.{AllSafe, level_types, both_true}
use sol.Arguments.Positions.{
  IsFilled, all_flat, all_positions, from, get_types-positions, all_flat-level,
}
use sol.Overloads.Match.{Candidate, matched, overload_match}
use sol.Overloads.Choice.{fits, overload_match-IsChosen}

unfoldable pub has_passed : Checked → Bool
has_passed (passed _) = true
has_passed _ = false

-- An overload as `overload_match_arity` sees it, when the arguments from `start` on are on the stack.
unfoldable pub candidate : List Value → ℕ → ArgTypes → Candidate
unfolding has_passed
candidate s start ts = record {
  free_arity = free_arity ts;
  runtime_variadics = runtime_variadics ts;
  accepts = has_passed (check_types s ts false start fresh);
}

abbrev fixed : ArgTypes → Bool
fixed ts = all_flat ts && not (runtime_variadics ts)

elem_of_map :
    (s : List Value) (start n : ℕ) (all : List ArgTypes) (fx : Candidate)
    → get_elem? (map (candidate s start) all) n ≡ some fx
    → All (λ ts. fixed ts ≡ true) all
    → (ts : ArgTypes) × (get_elem? all n ≡ some ts)
      × (fx ≡ candidate s start ts)
      × (fixed ts ≡ true)
elem_of_map s start n [] fx h f = cc
elem_of_map s start zero (ts ∷ all) fx h (k, f) = (ts, refl, sym (cc), k)
elem_of_map s start (suc n) (ts ∷ all) fx h (k, f) = elem_of_map s start n all fx h f

fits-reads :
    (s : List Value) (start : ℕ) (ts : ArgTypes)
    → fixed ts ≡ true
    → IsFilled s
    → 0 < start
    → start ≤ length s + 1
    → fits (length s - (start - 1)) (candidate s start ts) ≡ true
    → AllSafe (get_types s ts start fresh).0
      × (all_positions (get_types s ts start fresh).0 ≡ from start (length s + 1 - start))
unfolding candidate
fits-reads s start ts k f z m h = split (check_types s ts false start fresh) refl
  where
    split :
        (c : Checked)
        → check_types s ts false start fresh ≡ c
        → AllSafe (get_types s ts start fresh).0
          × (all_positions (get_types s ts start fresh).0 ≡ from start (length s + 1 - start))
    split (passed t) e =
        let (k1, k2) = both_true (all_flat ts) (not (runtime_variadics ts)) k in
        let size : free_arity ts ≡ length s + 1 - start = ground arith in
        (
          (level_types ts s false start fresh t fresh (all_flat-level ts k1) refl e).0,
          get_types-positions ts s false start t k1 f z (omega arith) e ∙ ap (from start) size,
        )
    split refused e = ground arith
    split raised e = ground arith

-- Of two or more overloads, whose parameters take one slot each, or none, and none of which takes the
-- rest of the arguments, the one that is chosen for the arguments on the stack reads every argument once
-- and in order, from the first to the top, and every value that it reads is one of the parameter's type
-- or can be read as an optional one.
pub overload_match-reads :
    (ts1 ts2 : ArgTypes) (more : List ArgTypes) (s : List Value) (start n : ℕ)
    → All (λ ts. (all_flat ts && not (runtime_variadics ts)) ≡ true) (ts1 ∷ ts2 ∷ more)
    → IsFilled s
    → 0 < start
    → start ≤ length s + 1
    → overload_match (map (candidate s start) (ts1 ∷ ts2 ∷ more)) (length s) start ≡ matched n
    → (ts : ArgTypes) × (get_elem? (ts1 ∷ ts2 ∷ more) n ≡ some ts)
      × AllSafe (get_types s ts start fresh).0
      × (all_positions (get_types s ts start fresh).0 ≡ from start (length s + 1 - start))
overload_match-reads ts1 ts2 more s start n f filled z m h =
    elim (overload_match-IsChosen (candidate s start ts1) (candidate s start ts2)
      (map (candidate s start) more) (length s) start) [
        | inl (n', e, ((fx, place, fit), _)) ↦
            let same : n ≡ n' = cc in
            let (ts, at_n, made, k) = elem_of_map s start n' (ts1 ∷ ts2 ∷ more) fx place f in
            let fit' : fits (length s - (start - 1)) (candidate s start ts) ≡ true =
              ap (fits (length s - (start - 1))) (sym made) ∙ fit in
            let (safe, read) = fits-reads s start ts k filled z m fit' in
            (ts, ap (get_elem? (ts1 ∷ ts2 ∷ more)) same ∙ at_n, safe, read)
        | inr (e, _) ↦ cc
      ]

-- ===== src/Overloads/Choice.antt =====
-- The overload that is called is the first that fits.
use sol.Base.{
  ℕ, zero, suc, ◌+◌, ◌-◌, ◌<◌, ◌≡◌, refl, sym, ap, ◌∙◌, arith, Bool, true, false, ◌==◌, ◌&&◌, ◌||◌,
  if◌then◌else◌, List, [], ◌∷◌, Option, none, some, get_elem?, ◌⊎◌, inl, inr, Bool-cases,
}
use sol.Overloads.Match.{
  Candidate, Result, matched, no_match, find_in_pack, overload_match_arity,
  overload_match_arity_single, overload_match_all, overload_match,
}

-- An overload takes the arguments that are there, by number and by type.
abbrev pub fits : ℕ → Candidate → Bool
fits fxarity fx = (fx.runtime_variadics || fx.free_arity == fxarity) && fx.accepts

-- The first overload that fits, with no arities remembered.
abbrev pub first_fit : List Candidate → ℕ → ℕ → Result
first_fit [] i fxarity = no_match
first_fit (fx ∷ fxs) i fxarity =
    if fits fxarity fx then matched i else first_fit fxs (i + 1) fxarity

found_in_pack :
    (n fxarity : ℕ) (ms : List ℕ)
    → find_in_pack fxarity ms ≡ false
    → find_in_pack n ms ≡ true
    → (n == fxarity) ≡ false
found_in_pack n fxarity ms h f = elim (Bool-cases (n == fxarity)) [
  | inl e ↦
      let same : n ≡ fxarity = ground arith in
      let found : find_in_pack fxarity ms ≡ true = rw (sym same) f in cc
  | inr e ↦ e
]

pack_unfit :
    (n fxarity : ℕ) (ms : List ℕ)
    → (n == fxarity) ≡ false
    → find_in_pack fxarity ms ≡ false
    → find_in_pack fxarity (n ∷ ms) ≡ false
unfolding find_in_pack
pack_unfit n fxarity ms e h = ground arith

-- Arities that do not fit may be remembered: what they rule out does not fit.
remembered :
    (fxs : List Candidate) (i fxarity : ℕ) (ms : List ℕ)
    → find_in_pack fxarity ms ≡ false
    → overload_match_arity fxs i ms fxarity ≡ first_fit fxs i fxarity
unfolding overload_match_arity
remembered [] i fxarity ms h = refl
remembered (fx ∷ fxs) i fxarity ms h = ground (
  arith,
  found_in_pack fx.free_arity fxarity ms h,
  remembered fxs (i + 1) fxarity ms h,
  remembered fxs (i + 1) fxarity (fx.free_arity ∷ ms),
  pack_unfit fx.free_arity fxarity ms,
)

nothing_remembered : (fxarity : ℕ) → find_in_pack fxarity [] ≡ false
unfolding find_in_pack
nothing_remembered fxarity = refl

-- What the rest of the overloads is searched with, when the first does not fit.
one_remembered : (n fxarity : ℕ) → (n == fxarity) ≡ false → find_in_pack fxarity (n ∷ []) ≡ false
one_remembered n fxarity e = pack_unfit n fxarity [] e (nothing_remembered fxarity)

overload_match-first_fit :
    (fx fx1 : Candidate) (fxs : List Candidate) (top start : ℕ)
    → overload_match (fx ∷ fx1 ∷ fxs) top start ≡ first_fit (fx ∷ fx1 ∷ fxs) 0 (top - (start - 1))
unfolding overload_match overload_match_all overload_match_arity_single
overload_match-first_fit fx fx1 fxs top start =
    let fxarity = top - (start - 1) in
    ground (
      arith,
      nothing_remembered fxarity,
      nothing_remembered fx.free_arity,
      one_remembered fx.free_arity fxarity,
      remembered (fx1 ∷ fxs) 1 fxarity [],
      remembered (fx1 ∷ fxs) 1 fxarity (fx.free_arity ∷ []),
    )

-- The overload at `n` fits, and none before it does.
abbrev pub IsChosen : List Candidate → ℕ → ℕ → Type 0
IsChosen fxs fxarity n =
    ((fx : Candidate) × (get_elem? fxs n ≡ some fx) × (fits fxarity fx ≡ true))
    × ((m : ℕ) (fx : Candidate) → m < n → get_elem? fxs m ≡ some fx → fits fxarity fx ≡ false)

NoneFits : List Candidate → ℕ → Type 0
NoneFits fxs fxarity =
    (m : ℕ) (fx : Candidate) → get_elem? fxs m ≡ some fx → fits fxarity fx ≡ false

unfit_before :
    (fx : Candidate) (fxs : List Candidate) (fxarity m : ℕ) (g : Candidate)
    → fits fxarity fx ≡ false
    → ((k : ℕ) → m ≡ suc k → get_elem? fxs k ≡ some g → fits fxarity g ≡ false)
    → get_elem? (fx ∷ fxs) m ≡ some g
    → fits fxarity g ≡ false
unfit_before fx fxs fxarity zero g f later e =
    let same : fx ≡ g = ap (λ (o : Option Candidate). elim o [ none ↦ fx | some h ↦ h ]) e in
    simp (sym same) f
unfit_before fx fxs fxarity (suc k) g f later e = later k refl e

first_fit-IsChosen :
    (fxs : List Candidate) (i fxarity : ℕ)
    → ((n : ℕ) × (first_fit fxs i fxarity ≡ matched (i + n)) × IsChosen fxs fxarity n)
      ⊎ ((first_fit fxs i fxarity ≡ no_match) × NoneFits fxs fxarity)
unfolding NoneFits
first_fit-IsChosen [] i fxarity = inr (refl, λ m fx e. cc)
first_fit-IsChosen (fx ∷ fxs) i fxarity = elim (Bool-cases (fits fxarity fx)) [
  | inl t ↦
      let here : i + 0 ≡ i = ground arith in
      inl (0, rw (t, here) refl, ((fx, refl, t), λ m g l e. ground arith))
  | inr f ↦ elim (first_fit-IsChosen fxs (i + 1) fxarity) [
    | inl (n, e, ((g, place, fit), before)) ↦
        let there : i + suc n ≡ i + 1 + n = ground arith in
        inl (
          suc n,
          rw (f, there) e,
          (
            (g, place, fit),
            λ m h l at_m.
                unfit_before fx fxs fxarity m h f (λ k q at_k. before k h (ground arith) at_k) at_m,
          ),
        )
    | inr (e, none_fits) ↦ inr (
      rw f e,
      λ m h at_m. unfit_before fx fxs fxarity m h f (λ k q at_k. none_fits k h at_k) at_m,
    )
  ]
]

-- A call of a function with two or more overloads goes to the first overload that takes the number of
-- arguments and their types, and is an error exactly when none does.
pub overload_match-IsChosen :
    (fx fx1 : Candidate) (fxs : List Candidate) (top start : ℕ)
    → let fxarity = top - (start - 1) in
      let all = fx ∷ fx1 ∷ fxs in
      ((n : ℕ) × (overload_match all top start ≡ matched n) × IsChosen all fxarity n)
      ⊎ ((overload_match all top start ≡ no_match)
          × ((m : ℕ) (g : Candidate) → get_elem? all m ≡ some g → fits fxarity g ≡ false))
unfolding NoneFits
overload_match-IsChosen fx fx1 fxs top start =
    rw (overload_match-first_fit fx fx1 fxs top start)
      (elim (first_fit-IsChosen (fx ∷ fx1 ∷ fxs) 0 (top - (start - 1))) [
        | inl (n, e, chosen) ↦
            let place : 0 + n ≡ n = ground arith in inl (n, e ∙ ap matched place, chosen)
        | inr r ↦ inr r
      ])

-- An overload set of one function calls it with whatever types the arguments have, if their number
-- fits, and is an error otherwise.
pub overload_match-single :
    (fx : Candidate) (top start : ℕ)
    → overload_match (fx ∷ []) top start
      ≡ (if fx.runtime_variadics || fx.free_arity == top - (start - 1) then matched 0 else no_match)
unfolding overload_match overload_match_all overload_match_arity_single overload_match_arity
overload_match-single fx top start = ground (arith, nothing_remembered fx.free_arity)

-- ===== src/Usertypes/Walking.antt =====
-- The walk through the bases finds the first definition, depth first.
use sol.Base.{
  ℕ, ◌≡◌, refl, sym, ap, ◌∙◌, arith, Bool, true, false, not, ◌==◌, if◌then◌else◌, List, [], ◌∷◌,
  ◌++◌, Option, none, some, inl, inr, Bool-cases, Option-cases,
}
use mathlib.Core.Path.{fun_ext}
use sol.Usertypes.Storage.{Bases, no_bases, base, Storage}
use sol.Usertypes.Found.{is_answer, found_call-found}
use sol.Usertypes.Indexing.{
  Response, Call, found_call, Usertypes, with_storage, Walk, is_walking_failed, Mode, fail_call,
  answer_with, answer, walk_maybe, base_walk_index, start_walk, walk_bases, self_index_call,
}

-- The registered classes among the bases and their bases, depth first. A base that is not registered is
-- left out with its own bases.
abbrev pub is_registered : Option Storage → Bool
is_registered none = false
is_registered (some s) = true

abbrev pub depth_first : Usertypes → Bases → List ℕ
depth_first us no_bases = []
depth_first us (base n its rest) =
    if is_registered (us n)
    then n ∷ (depth_first us its ++ depth_first us rest)
    else depth_first us rest

-- What a class answers for itself, with the storages that are left.
abbrev pub put_found : ℕ → Usertypes → Option (Storage × Response) → Option (Usertypes × Response)
put_found n us none = none
put_found n us (some r) = some (with_storage n r.0 us, r.1)

abbrev pub own_answer : Bool → ℕ → Call → Usertypes → Option Storage → Option (Usertypes × Response)
own_answer is_new_index n c us none = none
own_answer is_new_index n c us (some s) = put_found n us (found_call is_new_index c.key c s)

abbrev pub or_else :
    Option (Usertypes × Response) → Option (Usertypes × Response) → Option (Usertypes × Response)
or_else none o = o
or_else (some r) o = some r

-- The answer of the first class that has one.
abbrev pub first_answer : Bool → Call → Usertypes → List ℕ → Option (Usertypes × Response)
first_answer is_new_index c us [] = none
first_answer is_new_index c us (n ∷ ns) =
    or_else (own_answer is_new_index n c us (us n)) (first_answer is_new_index c us ns)

or_else-append :
    (i : Bool) (c : Call) (us : Usertypes) (ns ks : List ℕ)
    → first_answer i c us (ns ++ ks) ≡ or_else (first_answer i c us ns) (first_answer i c us ks)
or_else-append i c us [] ks = refl
or_else-append i c us (n ∷ ns) ks = elim (Option-cases (own_answer i n c us (us n))) [
  | inl e ↦ rw e (or_else-append i c us ns ks)
  | inr (r, e) ↦ rw e refl
]

first_answer-skip :
    (i : Bool) (c : Call) (us : Usertypes) (ns ks : List ℕ)
    → first_answer i c us ns ≡ none
    → first_answer i c us (ns ++ ks) ≡ first_answer i c us ks
first_answer-skip i c us ns ks e = rw (or_else-append i c us ns ks, e) refl

-- A walk that goes on, or one that has found an answer.
abbrev pub walked_to : Usertypes → Option (Usertypes × Response) → Walk
walked_to us none = start_walk us
walked_to us (some r) = record {
  usertypes = r.0;
  keep_going = is_walking_failed r.1;
  base_result = r.1;
}

walk_bases-stopped :
    (i : Bool) (bases : Bases) (c : Call) (w : Walk)
    → w.keep_going ≡ false
    → walk_bases i bases c w ≡ w
unfolding walk_bases base_walk_index
walk_bases-stopped i no_bases c w e = refl
walk_bases-stopped i (base n its rest) c w e = simp e (walk_bases-stopped i rest c w e)

put_back : (us : Usertypes) (n : ℕ) (s : Storage) → us n ≡ some s → with_storage n s us ≡ us
put_back us n s e = fun_ext λ m. elim (Bool-cases (m == n)) [
  | inl same ↦ let names : m ≡ n = ground arith in rw same (sym e ∙ ap us (sym names))
  | inr differs ↦ rw differs refl
]

-- No answer of a class is the mark of failure.
abbrev is_answered : Option (Usertypes × Response) → Bool
is_answered none = true
is_answered (some r) = not (is_walking_failed r.1)

put_found-answered :
    (n : ℕ) (us : Usertypes) (x : Option (Storage × Response))
    → is_answer x ≡ true
    → is_answered (put_found n us x) ≡ true
put_found-answered n us none e = refl
put_found-answered n us (some r) e = e

own_answer-answered :
    (i : Bool) (n : ℕ) (c : Call) (us : Usertypes) (o : Option Storage)
    → is_answered (own_answer i n c us o) ≡ true
own_answer-answered i n c us none = refl
own_answer-answered i n c us (some s) =
    put_found-answered n us (found_call i c.key c s) (found_call-found i c.key c s)

or_else-answered :
    (a b : Option (Usertypes × Response))
    → is_answered a ≡ true
    → is_answered b ≡ true
    → is_answered (or_else a b) ≡ true
or_else-answered none b e f = f
or_else-answered (some r) b e f = e

first_answer-answered :
    (i : Bool) (c : Call) (us : Usertypes) (ns : List ℕ)
    → is_answered (first_answer i c us ns) ≡ true
first_answer-answered i c us [] = refl
first_answer-answered i c us (n ∷ ns) =
    or_else-answered (own_answer i n c us (us n)) (first_answer i c us ns)
      (own_answer-answered i n c us (us n)) (first_answer-answered i c us ns)

first_answer-found :
    (i : Bool) (c : Call) (us : Usertypes) (ns : List ℕ) (r : Usertypes × Response)
    → first_answer i c us ns ≡ some r
    → is_walking_failed r.1 ≡ false
first_answer-found i c us ns r e =
    let answered : not (is_walking_failed r.1) ≡ true =
      ap is_answered (sym e) ∙ first_answer-answered i c us ns in
    ground (arith, answered)

found-not_failed :
    (i : Bool) (c : Call) (s : Storage) (x : Storage × Response)
    → found_call i c.key c s ≡ some x
    → is_walking_failed x.1 ≡ false
found-not_failed i c s x e =
    let answered : not (is_walking_failed x.1) ≡ true =
      ap is_answer (sym e) ∙ found_call-found i c.key c s in
    ground (arith, answered)

pub walk_bases-first :
    (i : Bool) (bases : Bases) (c : Call) (us : Usertypes)
    → walk_bases i bases c (start_walk us)
      ≡ walked_to us (first_answer i c us (depth_first us bases))
unfolding walk_bases base_walk_index walk_maybe answer answer_with fail_call
walk_bases-first i no_bases c us = refl
walk_bases-first i (base n its rest) c us = elim (Option-cases (us n)) [
  | inl e ↦ rw e (walk_bases-first i rest c us)
  | inr (s, e) ↦ elim (Option-cases (found_call i c.key c s)) [
    | inr (x, f) ↦
        simp (e, f, found-not_failed i c s x f)
          (walk_bases-stopped i rest c
            (record { usertypes = with_storage n x.0 us; keep_going = false; base_result = x.1 })
            refl)
    | inl f ↦ elim (Option-cases (first_answer i c us (depth_first us its))) [
      | inl x ↦
          simp (e, f, walk_bases-first i its c us, x, put_back us n s e)
            (walk_bases-first i rest c us
              ∙ ap (walked_to us)
                  (sym (first_answer-skip i c us (depth_first us its) (depth_first us rest) x)))
      | inr (r, x) ↦
          simp
            (
              e,
              f,
              walk_bases-first i its c us,
              x,
              first_answer-found i c us (depth_first us its) r x,
            )
            (walk_bases-stopped i rest c
                (record { usertypes = r.0; keep_going = false; base_result = r.1 }) refl
              ∙ rw
                  (
                    or_else-append i c us (depth_first us its) (depth_first us rest),
                    x,
                    first_answer-found i c us (depth_first us its) r x,
                  )
                  refl)
    ]
  ]
]

abbrev pub or_failure : Option (Usertypes × Response) → Usertypes × Response → Usertypes × Response
or_failure none failed = failed
or_failure (some r) failed = r

-- What the class answers itself, or else the first of its bases.
abbrev pub class_answer :
    Bool → ℕ → Bases → Call → Usertypes → Storage → Option (Usertypes × Response)
class_answer is_new_index n bases c us s =
    or_else (put_found n us (found_call is_new_index c.key c s))
      (first_answer is_new_index c us (depth_first us bases))

abbrev pub failed_answer : Bool → Mode → ℕ → Call → Usertypes → Storage → Usertypes × Response
failed_answer is_new_index mode n c us s =
    let last = fail_call is_new_index mode c s in (with_storage n last.0 us, last.1)

-- A read or an assignment of a member of a class is answered by the class itself if it has the key, or
-- else by the first class that has it among its registered bases and their bases, depth first, or else
-- as the class answers missing keys. No storage is changed but that of the class that answers.
pub self_index_call-first :
    (is_new_index : Bool) (mode : Mode) (n : ℕ) (bases : Bases) (c : Call) (us : Usertypes)
    (s : Storage)
    → self_index_call is_new_index mode n bases c us s
      ≡ or_failure
          (class_answer is_new_index n bases c us s)
          (failed_answer is_new_index mode n c us s)
unfolding self_index_call answer answer_with
self_index_call-first i mode n bases c us s = elim (Option-cases (found_call i c.key c s)) [
  | inr (x, f) ↦ simp f refl
  | inl f ↦ elim (Option-cases (first_answer i c us (depth_first us bases))) [
    | inl x ↦ simp (f, walk_bases-first i bases c us, x) refl
    | inr (r, x) ↦
        simp
          (
            f,
            walk_bases-first i bases c us,
            x,
            first_answer-found i c us (depth_first us bases) r x,
          )
          refl
  ]
]

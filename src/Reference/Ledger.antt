-- ===== src/Reference/Ledger.antt =====
-- Who owns which slot, apart from what references are: `own i g k` says that the object `i` owns the
-- key `k` of the registry `g`, and `live g k` that the key is in use.
use sol.Base.{ℕ, ◌≡◌, sym, ◌∙◌, arith, Bool, true, false, ◌==◌, if◌then◌else◌, inl, inr, Bool-cases}

abbrev pub Keys : Type 0
Keys = ℕ → ℕ → Bool

-- No object owns a key that is not in use, no two own the same key, and every key in use is owned.
pub record IsOwned (own : ℕ → Keys) (live : Keys) : Type 0 where
  pub alive : (i g k : ℕ) → own i g k ≡ true → live g k ≡ true
  pub unique : (i j g k : ℕ) → own i g k ≡ true → own j g k ≡ true → i ≡ j
  pub owned : (g k : ℕ) → live g k ≡ true → (i : ℕ) × (own i g k ≡ true)

pub IsOwned-same :
    (own own' : ℕ → Keys) (live live' : Keys)
    → ((i g k : ℕ) → own' i g k ≡ own i g k)
    → ((g k : ℕ) → live' g k ≡ live g k)
    → IsOwned own live
    → IsOwned own' live'
IsOwned-same own own' live live' e f v = record {
  alive = λ i g k o. f g k ∙ v.alive i g k (sym (e i g k) ∙ o);
  unique = λ i j g k o o'. v.unique i j g k (sym (e i g k) ∙ o) (sym (e j g k) ∙ o');
  owned = λ g k h. let (i, o) = v.owned g k (sym (f g k) ∙ h) in (i, e i g k ∙ o);
}

abbrev pub minus : Keys → Keys → Keys
minus live old g k = if old g k then false else live g k

-- The object `i` owns `new` instead of what it owned.
abbrev pub replaced : (ℕ → Keys) → ℕ → Keys → ℕ → Keys
replaced own i new j g k = if i == j then new g k else own j g k

module _ (own : ℕ → Keys) (live live' : Keys) (v : IsOwned own live) (i : ℕ) (new : Keys)
    (keeps : (g k : ℕ) → new g k ≡ false → live' g k ≡ minus live (own i) g k)
    (adds : (g k : ℕ) → new g k ≡ true → live' g k ≡ true)
    (fresh : (g k : ℕ) → new g k ≡ true → minus live (own i) g k ≡ false) where
  other_kept :
      (j g k : ℕ) → (i == j) ≡ false → own j g k ≡ true → (live' g k ≡ true) × (new g k ≡ false)
  other_kept j g k ne o =
      ground (arith, v.alive j g k o, v.unique i j g k, keeps g k, adds g k, fresh g k)

  replaced_alive : (j g k : ℕ) → replaced own i new j g k ≡ true → live' g k ≡ true
  replaced_alive j g k o = ground (arith, adds g k, other_kept j g k)

  replaced_unique :
      (j l g k : ℕ) → replaced own i new j g k ≡ true → replaced own i new l g k ≡ true → j ≡ l
  replaced_unique j l g k o o' =
      ground (arith, other_kept j g k, other_kept l g k, v.unique j l g k)

  owner_after : (g k : ℕ) → live' g k ≡ true → (j : ℕ) × (replaced own i new j g k ≡ true)
  owner_after g k h = elim (Bool-cases (new g k)) [
    | inl n ↦ (i, ground arith)
    | inr n ↦
        let before : (live g k ≡ true) × (own i g k ≡ false) = ground (arith, keeps g k n) in
        let (j, o) = v.owned g k before.0 in (j, ground arith)
  ]

  pub replaced-IsOwned : IsOwned (replaced own i new) live'
  replaced-IsOwned = record {
    alive = replaced_alive;
    unique = replaced_unique;
    owned = owner_after;
  }

-- The object `i`, which owns nothing, takes over what `j` owns.
abbrev pub transferred : (ℕ → Keys) → ℕ → ℕ → ℕ → Keys
transferred own i j l g k = if i == l then own j g k else if j == l then false else own l g k

module _ (own : ℕ → Keys) (live : Keys) (v : IsOwned own live) (i j : ℕ) (apart : (i == j) ≡ false)
    (nothing : (g k : ℕ) → own i g k ≡ false) where
  taken_over : (g k : ℕ) → live g k ≡ true → (l : ℕ) × (transferred own i j l g k ≡ true)
  taken_over g k h =
      let (l, o) = v.owned g k h in
      elim (Bool-cases (j == l)) [
        | inl e ↦
            let same : l ≡ j = ground arith in
            let o' : own j g k ≡ true = rw same at o in (i, ground arith)
        | inr e ↦ (l, ground (arith, nothing g k))
      ]

  pub transferred-IsOwned : IsOwned (transferred own i j) live
  transferred-IsOwned = record {
    alive = λ l g k o. ground (arith, v.alive j g k, v.alive l g k);
    unique = λ l m g k o o'. ground (arith, v.unique l m g k, v.unique j m g k, v.unique j l g k);
    owned = taken_over;
  }

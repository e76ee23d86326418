-- ===== src/Traversal/Examples.antt =====
-- A table of two entries, above a stack of numbers. Its keys are 1 and 2, and nil is 0.
use sol.Base.{
  ℕ, zero, suc, ◌-◌, ◌≡◌, refl, sym, ap, ◌∙◌, arith, Bool, true, false, Option, none, some, List,
  [], ◌∷◌, ◌++◌, map, length, length-append, get_elem?, take, drop,
}
use sol.Calls.Small.{numbers, numbers-IsLuaStack, take_all}
use sol.Traversal.Next.{LuaNext, IsLuaNext}
use sol.Traversal.Iterator.{begin_table, loop_table, next_pair_copy}
use sol.Traversal.Loops.{stop_behind, loop_table-visits, next_pair_copy-Leaves}

abbrev entries : List (ℕ × ℕ)
entries = (1, 11) ∷ (2, 12) ∷ []

abbrev key_or_end : Option ℕ → ℕ
key_or_end none = 2
key_or_end (some k) = k

abbrev push_entry : List ℕ → List (ℕ × ℕ) → Bool × List ℕ
push_entry below [] = (false, below)
push_entry below ((k, v) ∷ rest) = (true, below ++ k ∷ v ∷ [])

abbrev two_entries : LuaNext numbers
two_entries = record {
  next = λ i s.
      push_entry (take (length s - 1) s) (drop (key_or_end (get_elem? s (length s - 1))) entries);
  nil = 0;
  after = λ t k. drop k entries;
}

last_lem : (below : List ℕ) (k n : ℕ) → n ≡ length below → get_elem? (below ++ k ∷ []) n ≡ some k
last_lem [] k n e = rw e refl
last_lem (x ∷ below) k n e = rw e (last_lem below k (length below) refl)

next_lem :
    (below s : List ℕ) (k i : ℕ)
    → s ≡ below ++ k ∷ []
    → two_entries.next i s ≡ push_entry below (drop k entries)
next_lem below s k i e =
    let size : length (below ++ k ∷ []) - 1 ≡ length below =
      omega (arith, length-append below (k ∷ [])) in
    rw (e, take_all below (k ∷ []) _ size, last_lem below k _ size) refl

key_of : ℕ → List (ℕ × ℕ) → ℕ
key_of z [] = z
key_of z ((k, v) ∷ rest) = k

behind : List (ℕ × ℕ) → List (ℕ × ℕ)
behind [] = []
behind (e ∷ rest) = rest

rest_lem :
    (k k' v : ℕ) (rest : List (ℕ × ℕ)) → drop k entries ≡ (k', v) ∷ rest → drop k' entries ≡ rest
unfolding key_of behind
rest_lem zero k' v rest e = ap (λ (n : ℕ). drop n entries) (sym (ap (key_of 0) e)) ∙ ap behind e
rest_lem (suc zero) k' v rest e =
    ap (λ (n : ℕ). drop n entries) (sym (ap (key_of 0) e)) ∙ ap behind e
rest_lem (suc (suc zero)) k' v rest e = cc
rest_lem (suc (suc (suc k))) k' v rest e = cc

two_entries-IsLuaNext : IsLuaNext numbers two_entries
two_entries-IsLuaNext = record {
  next_end = λ below t k i s e at h. rw (next_lem below s k (suc i) e, h) (refl, refl);
  next_entry = λ below t k k' v rest i s e at h.
      rw (next_lem below s k (suc i) e, h) (refl, refl, rest_lem k k' v rest h);
}

loop_table-visits_example :
    let (it, s1) = begin_table numbers two_entries 7 (4 ∷ 5 ∷ []) in
    ((s' : List ℕ) × (loop_table numbers two_entries 3 it s1 ≡ some (map some entries, s'))
      × (s' ≡ 4 ∷ 5 ∷ []))
    × (stop_behind numbers two_entries 1 it s1 ≡ 4 ∷ 5 ∷ [])
loop_table-visits_example =
    loop_table-visits numbers numbers-IsLuaStack two_entries two_entries-IsLuaNext 7 (4 ∷ 5 ∷ []) 1

next_pair_copy-Leaves_example :
    let (it, s1) = begin_table numbers two_entries 7 (4 ∷ 5 ∷ []) in
    let (it', s2) = next_pair_copy numbers two_entries it s1 in
    (it'.idx ≡ some 1) × (it'.kvp ≡ some (2, 12)) × (s2 ≡ 4 ∷ 5 ∷ [])
next_pair_copy-Leaves_example =
    next_pair_copy-Leaves numbers numbers-IsLuaStack two_entries two_entries-IsLuaNext 7
      (4 ∷ 5 ∷ []) (1, 11) (2, 12) [] refl

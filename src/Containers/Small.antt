-- ===== src/Containers/Small.antt =====
-- A map and a set that keep their keys in lists.
use sol.Base.{
  ℕ, ◌==◌, ◌≡◌, refl, arith, true, false, if◌then◌else◌, none, some, List, [], ◌∷◌, ◌||◌,
}
use sol.Containers.Maps.{StdMap, IsMap, lookup}
use sol.Containers.Sets.{StdSet, IsStdSet, member}

module _ {A : Type 0} where
  abbrev put : ℕ → A → List (ℕ × A) → List (ℕ × A)
  put k v [] = (k, v) ∷ []
  put k v ((j, w) ∷ xs) = let rest = put k v xs in if j == k then (k, v) ∷ xs else (j, w) ∷ rest

  abbrev put_new : ℕ → A → List (ℕ × A) → List (ℕ × A)
  put_new k v xs = elim (lookup k xs) [ none ↦ put k v xs | some _ ↦ xs ]

  abbrev remove_key : ℕ → List (ℕ × A) → List (ℕ × A)
  remove_key k [] = []
  remove_key k ((j, w) ∷ xs) = let rest = remove_key k xs in if j == k then rest else (j, w) ∷ rest

  lookup-put :
      (k j : ℕ) (v : A) (xs : List (ℕ × A))
      → lookup j (put k v xs) ≡ (if k == j then some v else lookup j xs)
  lookup-put k j v [] = refl
  lookup-put k j v ((i, w) ∷ xs) = ground (arith, lookup-put k j v xs)

  lookup-remove_key :
      (k j : ℕ) (xs : List (ℕ × A))
      → lookup j (remove_key k xs) ≡ (if k == j then none else lookup j xs)
  lookup-remove_key k j [] = ground arith
  lookup-remove_key k j ((i, w) ∷ xs) = ground (arith, lookup-remove_key k j xs)

  lookup-put_new :
      (k j : ℕ) (v : A) (xs : List (ℕ × A))
      → lookup k xs ≡ none
      → lookup j (put_new k v xs) ≡ (if k == j then some v else lookup j xs)
  lookup-put_new k j v xs h = ground (arith, lookup-put k j v xs)

  put_new_present :
      (k j : ℕ) (v w : A) (xs : List (ℕ × A))
      → lookup k xs ≡ some w
      → lookup j (put_new k v xs) ≡ lookup j xs
  put_new_present k j v w xs h = ground arith

abbrev pub list_map : (A : Type 0) → StdMap A
list_map A = record {
  Container = List (ℕ × A);
  find = λ c k. lookup k c;
  assign = λ c k v. put k v c;
  insert = λ c k v. put_new k v c;
  erase = λ c k. remove_key k c;
  clear = λ c. [];
  entries = λ c. c;
}

pub list_map-IsMap : (A : Type 0) → IsMap (list_map A)
list_map-IsMap A = record {
  entries-find = λ c k. refl;
  find-assign = λ c k j v w h. lookup-put k j v c;
  find-insert = λ c k j v h. lookup-put_new k j v c h;
  find-insert_present = λ c k j v w h. put_new_present k j v w c h;
  find-erase = λ c k j. lookup-remove_key k j c;
  find-clear = λ c j. refl;
}

abbrev remove_all : ℕ → List ℕ → List ℕ
remove_all k [] = []
remove_all k (j ∷ js) = let rest = remove_all k js in if j == k then rest else j ∷ rest

abbrev put_key : ℕ → List ℕ → List ℕ
put_key k js = if member k js then js else k ∷ js

member-remove_all :
    (k j : ℕ) (js : List ℕ) → member j (remove_all k js) ≡ (if k == j then false else member j js)
member-remove_all k j [] = ground arith
member-remove_all k j (i ∷ js) = ground (arith, member-remove_all k j js)

same_member : (k j : ℕ) (js : List ℕ) → (k == j) ≡ true → member k js ≡ true → member j js ≡ true
same_member k j js e h = let same : k ≡ j = ground arith in (rw same at h)

member-put_key : (k j : ℕ) (js : List ℕ) → member j (put_key k js) ≡ (k == j || member j js)
member-put_key k j js = ground (arith, same_member k j js)

abbrev pub list_set : StdSet
list_set = record {
  Container = List ℕ;
  has = λ c k. member k c;
  insert = λ c k. put_key k c;
  erase = λ c k. remove_all k c;
  clear = λ c. [];
  keys = λ c. c;
}

pub list_set-IsStdSet : IsStdSet list_set
list_set-IsStdSet = record {
  keys-has = λ c k. refl;
  has-insert = λ c k j. member-put_key k j c;
  has-erase = λ c k j. member-remove_all k j c;
  has-clear = λ c j. refl;
}

pub ==_comm : (x y : ℕ) → (x == y) ≡ (y == x)
==_comm x y = ground arith

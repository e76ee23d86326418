-- ===== src/Usertypes/Bindings.antt =====
-- The bindings of a storage, when one is added or takes the place of another.
use sol.Base.{ℕ, ◌≡◌, arith, false, ◌==◌, List, [], ◌∷◌, ◌++◌, none, some}
use sol.Usertypes.Storage.{Binding, binding_at}
use sol.Usertypes.Setting.{replace_binding}

pub binding_at-push_self :
    (b : Binding) (bs : List Binding)
    → binding_at b.address bs ≡ none
    → binding_at b.address (bs ++ (b ∷ [])) ≡ some b
unfolding binding_at
binding_at-push_self b [] fresh = ground arith
binding_at-push_self b (x ∷ bs) fresh = ground (arith, binding_at-push_self b bs)

pub binding_at-push :
    (d : ℕ) (b x : Binding) (bs : List Binding)
    → binding_at d bs ≡ some x
    → binding_at d (bs ++ (b ∷ [])) ≡ some x
unfolding binding_at
binding_at-push d b x [] there = cc
binding_at-push d b x (y ∷ bs) there = ground (arith, binding_at-push d b x bs)

pub binding_at-replace_self :
    (d : ℕ) (b : Binding) (bs : List Binding)
    → binding_at b.address bs ≡ none
    → binding_at b.address (replace_binding d b bs) ≡ some b
unfolding binding_at replace_binding
binding_at-replace_self d b [] fresh = ground arith
binding_at-replace_self d b (x ∷ bs) fresh = ground (arith, binding_at-replace_self d b bs)

pub binding_at-replace :
    (d e : ℕ) (b x : Binding) (bs : List Binding)
    → (e == d) ≡ false
    → (e == b.address) ≡ false
    → binding_at e bs ≡ some x
    → binding_at e (replace_binding d b bs) ≡ some x
unfolding binding_at replace_binding
binding_at-replace d e b x [] other_place other_address there = cc
binding_at-replace d e b x (y ∷ bs) other_place other_address there =
    ground (arith, binding_at-replace d e b x bs)

-- A binding that is there is not at an address that is free.
pub not_fresh :
    (d e : ℕ) (x : Binding) (bs : List Binding)
    → binding_at d bs ≡ some x
    → binding_at e bs ≡ none
    → (d == e) ≡ false
unfolding binding_at
not_fresh d e x [] there fresh = cc
not_fresh d e x (y ∷ bs) there fresh = ground (arith, not_fresh d e x bs)

pub address_of :
    (d : ℕ) (x : Binding) (bs : List Binding) → binding_at d bs ≡ some x → x.address ≡ d
unfolding binding_at
address_of d x [] there = cc
address_of d x (y ∷ bs) there = ground (arith, address_of d x bs)

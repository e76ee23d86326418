-- ===== src/Usertypes/Local.antt =====
-- What `for_each_table` does with a function that changes only the table it is given.
use sol.Base.{◌≡◌, refl, ap, ◌∙◌, false, ◌==◌}
use sol.Usertypes.Storage.{
  Submetatable, value, reference, unique, const_reference, const_value, named, number, Table,
  Tables, for_each_table,
}

-- A function that changes its own table only, and how.
pub record IsLocal (fx : Submetatable → Tables → Tables) (change : Submetatable → Table → Table)
    : Type 0 where
  pub own : (smt : Submetatable) (ts : Tables) → (fx smt ts).at smt ≡ change smt (ts.at smt)
  pub others :
      (smt m : Submetatable) (ts : Tables)
      → (number m == number smt) ≡ false
      → (fx smt ts).at m ≡ ts.at m

pub for_each_table-at :
    (fx : Submetatable → Tables → Tables) (change : Submetatable → Table → Table)
    → IsLocal fx change
    → (smt : Submetatable) (ts : Tables) → (for_each_table fx ts).at smt ≡ change smt (ts.at smt)
unfolding for_each_table
for_each_table-at fx change local value ts =
    let ts1 = fx value ts in
    let ts2 = fx reference ts1 in
    let ts3 = fx unique ts2 in
    let ts4 = fx const_reference ts3 in
    let ts5 = fx const_value ts4 in
    local.others named value ts5 refl
    ∙ local.others const_value value ts4 refl
    ∙ local.others const_reference value ts3 refl
    ∙ local.others unique value ts2 refl
    ∙ local.others reference value ts1 refl
    ∙ local.own value ts
for_each_table-at fx change local reference ts =
    let ts1 = fx value ts in
    let ts2 = fx reference ts1 in
    let ts3 = fx unique ts2 in
    let ts4 = fx const_reference ts3 in
    let ts5 = fx const_value ts4 in
    local.others named reference ts5 refl
    ∙ local.others const_value reference ts4 refl
    ∙ local.others const_reference reference ts3 refl
    ∙ local.others unique reference ts2 refl
    ∙ local.own reference ts1
    ∙ ap (change reference) (local.others value reference ts refl)
for_each_table-at fx change local unique ts =
    let ts1 = fx value ts in
    let ts2 = fx reference ts1 in
    let ts3 = fx unique ts2 in
    let ts4 = fx const_reference ts3 in
    let ts5 = fx const_value ts4 in
    local.others named unique ts5 refl
    ∙ local.others const_value unique ts4 refl
    ∙ local.others const_reference unique ts3 refl
    ∙ local.own unique ts2
    ∙ ap (change unique)
        (local.others reference unique ts1 refl ∙ local.others value unique ts refl)
for_each_table-at fx change local const_reference ts =
    let ts1 = fx value ts in
    let ts2 = fx reference ts1 in
    let ts3 = fx unique ts2 in
    let ts4 = fx const_reference ts3 in
    let ts5 = fx const_value ts4 in
    local.others named const_reference ts5 refl
    ∙ local.others const_value const_reference ts4 refl
    ∙ local.own const_reference ts3
    ∙ ap (change const_reference) (
        local.others unique const_reference ts2 refl
        ∙ local.others reference const_reference ts1 refl
        ∙ local.others value const_reference ts refl)
for_each_table-at fx change local const_value ts =
    let ts1 = fx value ts in
    let ts2 = fx reference ts1 in
    let ts3 = fx unique ts2 in
    let ts4 = fx const_reference ts3 in
    let ts5 = fx const_value ts4 in
    local.others named const_value ts5 refl
    ∙ local.own const_value ts4
    ∙ ap (change const_value) (
        local.others const_reference const_value ts3 refl
        ∙ local.others unique const_value ts2 refl
        ∙ local.others reference const_value ts1 refl
        ∙ local.others value const_value ts refl)
for_each_table-at fx change local named ts =
    let ts1 = fx value ts in
    let ts2 = fx reference ts1 in
    let ts3 = fx unique ts2 in
    let ts4 = fx const_reference ts3 in
    let ts5 = fx const_value ts4 in
    local.own named ts5
    ∙ ap (change named) (
        local.others const_value named ts4 refl
        ∙ local.others const_reference named ts3 refl
        ∙ local.others unique named ts2 refl
        ∙ local.others reference named ts1 refl
        ∙ local.others value named ts refl)

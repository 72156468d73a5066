-- ===== src/Tenancy/Workspace/Slots.antt =====
-- Putting one entry in the place of another, and the slots that takes or frees.
use counted.Base.{◌+◌, List, [], ◌∷◌, String, none, some, ◌≡◌, refl, text_equality, eq_iff, arith}
use counted.Tenancy.ProjectCount.{ProjectEntry, count_against_cap, find_project}
use counted.Tenancy.ProjectCount.Laws.{slot, count-cons, Distinct}
use counted.Tenancy.Workspace.{replace}

-- An entry that is not there is not replaced.
replace_absent :
    (id : String) (entry : ProjectEntry) (ps : List ProjectEntry)
    → find_project ps id ≡ none
    → replace id entry ps ≡ ps
replace_absent id entry [] h = refl
replace_absent id entry (p ∷ ps) h = ground (arith, replace_absent id entry ps)

pub find-replace_other :
    (id other : String) (entry : ProjectEntry) (ps : List ProjectEntry)
    → entry.id ≡ id
    → find_project ps other ≡ none
    → find_project (replace id entry ps) other ≡ none
find-replace_other id other entry [] same h = refl
find-replace_other id other entry (p ∷ ps) same h =
    ground (arith, find-replace_other id other entry ps same, eq_iff p.id id, eq_iff entry.id other)

pub Distinct-replace :
    (id : String) (entry : ProjectEntry) (ps : List ProjectEntry)
    → entry.id ≡ id
    → Distinct ps
    → Distinct (replace id entry ps)
Distinct-replace id entry [] same d = tt
Distinct-replace id entry (p ∷ ps) same d = ground (
  arith,
  Distinct-replace id entry ps same d.1,
  find-replace_other id p.id entry ps same d.0,
  eq_iff p.id id,
)

-- The slots of the new entry are taken, and those of the old one are freed.
pub count-replace :
    (id : String) (entry old : ProjectEntry) (ps : List ProjectEntry)
    → Distinct ps
    → find_project ps id ≡ some old
    → count_against_cap (replace id entry ps) + slot old ≡ count_against_cap ps + slot entry
count-replace id entry old [] d h = cc
count-replace id entry old (p ∷ ps) d h = ground (
  arith,
  count-replace id entry old ps d.1,
  count-cons p ps,
  count-cons p (replace id entry ps),
  count-cons entry (replace id entry ps),
  replace_absent id entry ps,
  eq_iff p.id id,
)

-- A replacement is found, and can be replaced again.
pub find-replace_self :
    (id : String) (entry : ProjectEntry) (ps : List ProjectEntry) {old : ProjectEntry}
    → entry.id ≡ id
    → find_project ps id ≡ some old
    → find_project (replace id entry ps) id ≡ some entry
find-replace_self id entry [] same h = cc
find-replace_self id entry (p ∷ ps) {old} same h =
    ground (arith, find-replace_self id entry ps {old = old} same, eq_iff entry.id id)

pub replace_back :
    (id : String) (entry old : ProjectEntry) (ps : List ProjectEntry)
    → entry.id ≡ id
    → Distinct ps
    → find_project ps id ≡ some old
    → replace id old (replace id entry ps) ≡ ps
replace_back id entry old [] same d h = cc
replace_back id entry old (p ∷ ps) same d h = ground (
  arith,
  replace_back id entry old ps same d.1,
  replace_absent id entry ps,
  replace_absent id old ps,
  eq_iff p.id id,
  eq_iff entry.id id,
)

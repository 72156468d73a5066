-- ===== src/Tenancy/ProjectCount/Laws.antt =====
-- How the project count follows the register.
use counted.Base.{
  ℕ, ◌+◌, ◌≤◌, Bool, false, not, List, [], ◌∷◌, ◌++◌, String, none, some, ◌≡◌, refl, ◌==◌,
  text_equality, eq_iff, filter, length, arith, if◌then◌else◌,
}
use counted.Tenancy.ProjectCount.{
  ProjectEntry, counts_against_cap, count_from, count_against_cap, active_projects, find_project,
}

abbrev pub slot : ProjectEntry → ℕ
slot entry = if counts_against_cap entry then 1 else 0

count_from_lem :
    (n : ℕ) (entries : List ProjectEntry)
    → count_from n entries ≡ n + length (active_projects entries)
unfolding count_from
count_from_lem n [] = omega arith
count_from_lem n (entry ∷ entries) =
    ground (arith, count_from_lem n entries, count_from_lem (n + 1) entries)

-- The cap check's count is the number of the active projects that are reported.
pub count_lem :
    (entries : List ProjectEntry) → count_against_cap entries ≡ length (active_projects entries)
unfolding count_against_cap
count_lem entries = omega (arith, count_from_lem 0 entries)

pub count-cons :
    (entry : ProjectEntry) (entries : List ProjectEntry)
    → count_against_cap (entry ∷ entries) ≡ slot entry + count_against_cap entries
count-cons entry entries = ground (arith, count_lem entries, count_lem (entry ∷ entries))

pub count-append :
    (xs ys : List ProjectEntry)
    → count_against_cap (xs ++ ys) ≡ count_against_cap xs + count_against_cap ys
count-append [] ys = omega (arith, count_lem [])
count-append (x ∷ xs) ys =
    omega (arith, count-cons x (xs ++ ys), count-cons x xs, count-append xs ys)

-- No two entries have one id.
abbrev pub Distinct : List ProjectEntry → Type 0
Distinct [] = Unit
Distinct (p ∷ ps) = (find_project ps p.id ≡ none) × Distinct ps

pub count-filter-le :
    (p : ProjectEntry → Bool) (xs : List ProjectEntry)
    → count_against_cap (filter p xs) ≤ count_against_cap xs
count-filter-le p [] = omega arith
count-filter-le p (x ∷ xs) =
    ground (arith, count-filter-le p xs, count-cons x xs, count-cons x (filter p xs))

pub find-append :
    (xs ys : List ProjectEntry) (id : String)
    → find_project xs id ≡ none
    → find_project (xs ++ ys) id ≡ find_project ys id
find-append [] ys id h = refl
find-append (x ∷ xs) ys id h = ground (arith, find-append xs ys id)

-- What was found has the id that was asked for.
pub find-id :
    (xs : List ProjectEntry) (id : String) {entry : ProjectEntry}
    → find_project xs id ≡ some entry
    → entry.id ≡ id
find-id [] id h = cc
find-id (x ∷ xs) id {entry} h = ground (arith, eq_iff x.id id, find-id xs id {entry = entry})

pub find-filter :
    (p : ProjectEntry → Bool) (xs : List ProjectEntry) (id : String)
    → find_project xs id ≡ none
    → find_project (filter p xs) id ≡ none
find-filter p [] id h = refl
find-filter p (x ∷ xs) id h = ground (arith, find-filter p xs id)

pub Distinct-filter :
    (p : ProjectEntry → Bool) (xs : List ProjectEntry) → Distinct xs → Distinct (filter p xs)
Distinct-filter p [] d = tt
Distinct-filter p (x ∷ xs) d = ground (arith, Distinct-filter p xs d.1, find-filter p xs x.id d.0)

find-concat :
    (xs : List ProjectEntry) (entry : ProjectEntry) (id : String)
    → find_project xs id ≡ none
    → (entry.id == id) ≡ false
    → find_project (xs ++ entry ∷ []) id ≡ none
find-concat [] entry id h ne = ground arith
find-concat (x ∷ xs) entry id h ne = ground (arith, find-concat xs entry id)

pub Distinct-concat :
    (xs : List ProjectEntry) (entry : ProjectEntry)
    → Distinct xs
    → find_project xs entry.id ≡ none
    → Distinct (xs ++ entry ∷ [])
Distinct-concat [] entry d h = (refl, tt)
Distinct-concat (x ∷ xs) entry d h = ground (
  arith,
  Distinct-concat xs entry d.1,
  find-concat xs entry x.id d.0,
  eq_iff x.id entry.id,
  eq_iff entry.id x.id,
)

-- Whatever the register held under an id is gone.
pub find-filter_self :
    (xs : List ProjectEntry) (id : String)
    → find_project (filter (λ p. not (p.id == id)) xs) id ≡ none
find-filter_self [] id = refl
find-filter_self (x ∷ xs) id = ground (arith, find-filter_self xs id)

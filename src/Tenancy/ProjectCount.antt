-- ===== src/Tenancy/ProjectCount.antt =====
-- packages/tenancy/domain/src/project-count.ts: which projects consume a slot.
pub mod Laws
use counted.Base.{
  ℕ, ◌+◌, Bool, true, false, List, [], ◌∷◌, String, Option, ◌==◌, text_equality, filter, find,
  if◌then◌else◌,
}

pub data ProjectState : Type 0 where
  active archived : ProjectState

pub record ProjectEntry : Type 0 where
  pub id : String
  pub name : String
  pub state : ProjectState

abbrev pub is_active : ProjectState → Bool
is_active active = true
is_active archived = false

abbrev pub counts_against_cap : ProjectEntry → Bool
counts_against_cap entry = is_active entry.state

-- The loop of `countAgainstCap`.
count_from : ℕ → List ProjectEntry → ℕ
count_from n [] = n
count_from n (entry ∷ entries) = count_from (if counts_against_cap entry then n + 1 else n) entries

unfoldable pub count_against_cap : List ProjectEntry → ℕ
unfolding count_from
count_against_cap entries = count_from 0 entries

abbrev pub active_projects : List ProjectEntry → List ProjectEntry
active_projects entries = filter counts_against_cap entries

abbrev pub find_project : List ProjectEntry → String → Option ProjectEntry
find_project entries id = find (λ entry. entry.id == id) entries

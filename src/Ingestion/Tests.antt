-- ===== src/Ingestion/Tests.antt =====
-- A batch in which one event comes twice, and one has no key.
use counted.Base.{ℕ, List, [], ◌∷◌, Option, none, some, ◌≡◌, refl, nat_equality, find}
use counted.Ingestion.Dedup.{collapse_duplicates}
use counted.Ingestion.Dedup.Laws.{is_of, collapse_first}

abbrev Sent : Type 0
Sent = ℕ × Option ℕ

abbrev key_of : Sent → Option ℕ
key_of (n, key) = key

abbrev batch : List Sent
batch = (1, some 7) ∷ (2, none) ∷ (3, some 7) ∷ (4, some 8) ∷ (5, none) ∷ []

batch_runs :
    collapse_duplicates key_of batch (8 ∷ [])
    ≡ record { unique = (1, some 7) ∷ (2, none) ∷ (5, none) ∷ []; duplicates = 2 }
unfolding collapse_duplicates
batch_runs = refl

collapse_first_example :
    find (is_of key_of 7) (collapse_duplicates key_of batch (8 ∷ [])).unique ≡ some (1, some 7)
collapse_first_example = collapse_first key_of batch (8 ∷ []) 7

-- ===== src/Ingestion/Dedup.antt =====
-- packages/ingestion/domain/src/dedup.ts: repeats within a group are collapsed to the first.
-- An event is of any type with a key that may be missing; the set of keys is a list of those added.
pub mod Key
pub mod Laws
use counted.Base.{ℕ, suc, Bool, true, false, List, [], ◌∷◌, Option, none, some, Equality, includes}

pub record Deduplicated (T : Type 0) : Type 0 where
  pub unique : List T
  pub duplicates : ℕ

module _ {T : Type 0} where
  -- `unique.push(event)` and `duplicates += 1`, before the rest of the group
  abbrev pub keep : T → Deduplicated T → Deduplicated T
  keep event d = record d { unique = event ∷ d.unique }

  abbrev pub repeated : Deduplicated T → Deduplicated T
  repeated d = record d { duplicates = suc d.duplicates }

module _ {T K : Type 0} where
  unfoldable pub collapse_duplicates :
      ⦃e : Equality K⦄ → (T → Option K) → List T → List K → Deduplicated T
  collapse_duplicates key [] keys = record { unique = []; duplicates = 0 }
  collapse_duplicates key (event ∷ rest) keys = elim (key event) [
    | none ↦ keep event (collapse_duplicates key rest keys)
    | some k ↦ elim (includes keys k) [
      | true ↦ repeated (collapse_duplicates key rest keys)
      | false ↦ keep event (collapse_duplicates key rest (k ∷ keys))
    ]
  ]

-- ===== src/Ingestion/Dedup/Laws.antt =====
-- What is kept of a group, and how much is reported as a repeat.
use counted.Base.{
  ◌+◌, ◌≤◌, Bool, true, false, List, [], ◌∷◌, Option, none, some, ◌≡◌, refl, arith, Equality,
  includes, length, filter, find, option_beq, option_beq_iff, Option-cases, Bool-cases, inl, inr,
  if◌then◌else◌, All,
}
use counted.Ingestion.Dedup.{collapse_duplicates}

module _ {T K : Type 0} ⦃e : Equality K⦄ (key : T → Option K) where
  abbrev pub is_keyless : T → Bool
  is_keyless event = elim (key event) [ none ↦ true | some k ↦ false ]

  abbrev pub is_of : K → T → Bool
  is_of k event = option_beq (key event) (some k)

  -- Nothing disappears: every event of a group is kept or counted as a repeat.
  pub collapse_conserves :
      (events : List T) (seen : List K)
      → length (collapse_duplicates key events seen).unique
          + (collapse_duplicates key events seen).duplicates
        ≡ length events
  unfolding collapse_duplicates
  collapse_conserves [] seen = omega arith
  collapse_conserves (event ∷ rest) seen = grind (arith, collapse_conserves rest)

  -- Of the events with one key the first is kept, unless the key was seen before the group.
  pub collapse_first :
      (events : List T) (seen : List K) (k : K)
      → find (is_of k) (collapse_duplicates key events seen).unique
        ≡ (if includes seen k then none else find (is_of k) events)
  unfolding collapse_duplicates
  collapse_first [] seen k = ground arith
  collapse_first (event ∷ rest) seen k =
      grind (arith, collapse_first rest, e.same_iff, option_beq_iff)

  -- No key is kept twice.
  pub collapse_once :
      (events : List T) (seen : List K) (k : K)
      → length (filter (is_of k) (collapse_duplicates key events seen).unique)
          + (if includes seen k then 1 else 0)
        ≤ 1
  unfolding collapse_duplicates
  collapse_once [] seen k = ground arith
  collapse_once (event ∷ rest) seen k =
      grind (arith, collapse_once rest, e.same_iff, option_beq_iff)

  -- An event with no key is never taken for a repeat: all of them stay, in their order.
  pub collapse_keyless :
      (events : List T) (seen : List K)
      → filter is_keyless (collapse_duplicates key events seen).unique ≡ filter is_keyless events
  unfolding collapse_duplicates
  collapse_keyless [] seen = refl
  collapse_keyless (event ∷ rest) seen = grind (arith, collapse_keyless rest)

  includes-step :
      (seen fewer : List K) (k : K)
      → ((a : K) → includes fewer a ≡ true → includes seen a ≡ true)
      → (a : K) → includes (k ∷ fewer) a ≡ true
      → includes (k ∷ seen) a ≡ true
  includes-step seen fewer k sub a h = ground (arith, sub a, h)

  collapse_again_from :
      (events : List T) (seen fewer : List K)
      → ((k : K) → includes fewer k ≡ true → includes seen k ≡ true)
      → collapse_duplicates key (collapse_duplicates key events seen).unique fewer
        ≡ record { unique = (collapse_duplicates key events seen).unique; duplicates = 0 }
  unfolding collapse_duplicates
  collapse_again_from [] seen fewer sub = refl
  collapse_again_from (event ∷ rest) seen fewer sub = elim (Option-cases (key event)) [
    | inl h ↦ ground (arith, h, collapse_again_from rest seen fewer sub)
    | inr (k, h) ↦ elim (Bool-cases (includes seen k)) [
      | inl old ↦ ground (arith, h, old, collapse_again_from rest seen fewer sub)
      | inr fresh ↦ ground (
        arith,
        h,
        fresh,
        sub k,
        collapse_again_from rest (k ∷ seen) (k ∷ fewer) (includes-step seen fewer k sub),
      )
    ]
  ]

  -- Collapsing what was kept a second time, with no key seen before, changes nothing and reports no
  -- repeat.
  pub collapse_again :
      (events : List T) (seen : List K)
      → collapse_duplicates key (collapse_duplicates key events seen).unique []
        ≡ record { unique = (collapse_duplicates key events seen).unique; duplicates = 0 }
  collapse_again events seen = collapse_again_from events seen [] (λ k h. ground (arith, h))

module _ {T K : Type 0} ⦃e : Equality K⦄ (key : T → Option K) (P : T → Type 0) where
  -- What holds of every event of a group holds of those that are kept.
  pub collapse-All :
      (events : List T) (seen : List K)
      → All P events
      → All P (collapse_duplicates key events seen).unique
  unfolding collapse_duplicates
  collapse-All [] seen h = tt
  collapse-All (event ∷ rest) seen h =
      grind (arith, collapse-All rest seen h.1, λ (k : K). collapse-All rest (k ∷ seen) h.1)

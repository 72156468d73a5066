-- ===== src/Projects/Credential/Laws.antt =====
-- When a key works, when it may be revoked, and which names are free.
use counted.Base.{
  true, not, ◌&&◌, List, [], ◌∷◌, String, none, some, ◌≡◌, ◌↔◌, ◌≢◌, ◌⊎◌, refl, inl, inr, arith,
  filter, find, length, ◌==◌, text_equality, eq_iff, trim, All, Option-cases,
}
use counted.Base.Int.{◌<ℤ◌}
use counted.Kernel.Result.{ok}
use counted.Kernel.Instant.{Instant}
use counted.Projects.Credential.{
  CredentialFacts, CredentialKind, ingest, service, is_usable, usable_ingest_credentials,
  can_ingest, name_is_available, live, may_revoke,
}

-- A key authenticates exactly where it was not revoked and has no expiry, or one still to come.
pub is_usable_iff :
    (c : CredentialFacts) (at : Instant)
    → (is_usable c at ≡ true) ↔ (
        (c.revoked_at ≡ none)
        × ((c.expires_at ≡ none) ⊎ ((e : Instant) × (c.expires_at ≡ some e) × (at <ℤ e))))
unfolding is_usable
is_usable_iff c at = elim (Option-cases c.expires_at) [
  | inl none_set ↦ ground arith
  | inr (e, set) ↦ (λ h. (ground arith, inr (e, set, ground arith)), λ h. ground arith)
]

-- No two credentials have one id.
abbrev pub Distinct : List CredentialFacts → Type 0
Distinct [] = Unit
Distinct (c ∷ cs) = (find (λ d. d.id == c.id) cs ≡ none) × Distinct cs

-- The credentials that are left when one is revoked.
abbrev pub without : String → List CredentialFacts → List CredentialFacts
without target cs = filter (λ c. not (c.id == target)) cs

live_found :
    (cs : List CredentialFacts) (target : String) (at : Instant) (c : CredentialFacts)
    → live cs target at ≡ ok c
    → (find (λ d. d.id == target) cs ≡ some c) × (is_usable c at ≡ true)
unfolding live is_usable
live_found cs target at c h = ground arith

count-without_ingest :
    (cs : List CredentialFacts) (target : String) (at : Instant)
    → length (filter (λ c. not (c.id == target)) (usable_ingest_credentials cs at))
      ≡ length (usable_ingest_credentials (without target cs) at)
count-without_ingest [] target at = refl
count-without_ingest (c ∷ cs) target at = ground (arith, count-without_ingest cs target at)

without_absent :
    (cs : List CredentialFacts) (target : String) (at : Instant)
    → find (λ d. d.id == target) cs ≡ none
    → usable_ingest_credentials (without target cs) at ≡ usable_ingest_credentials cs at
without_absent [] target at h = refl
without_absent (c ∷ cs) target at h = ground (arith, without_absent cs target at)

without_service :
    (cs : List CredentialFacts) (target : String) (at : Instant) (c : CredentialFacts)
    → Distinct cs
    → find (λ d. d.id == target) cs ≡ some c
    → c.kind ≡ service
    → usable_ingest_credentials (without target cs) at ≡ usable_ingest_credentials cs at
without_service [] target at c d h k = cc
without_service (x ∷ cs) target at c d h k =
    ground
      (arith, without_service cs target at c d.1, without_absent cs target at, eq_iff x.id target)

Kind-cases : (k : CredentialKind) → (k ≡ ingest) ⊎ (k ≡ service)
Kind-cases ingest = inl refl
Kind-cases service = inr refl

may_revoke-live :
    (cs : List CredentialFacts) (target : String) (at : Instant) (c : CredentialFacts)
    → may_revoke cs target at ≡ ok c
    → live cs target at ≡ ok c
unfolding may_revoke
may_revoke-live cs target at c h = ground arith

may_revoke-ingest :
    (cs : List CredentialFacts) (target : String) (at : Instant) (c : CredentialFacts)
    → may_revoke cs target at ≡ ok c
    → c.kind ≡ ingest
    → can_ingest (without target cs) at ≡ true
unfolding may_revoke
may_revoke-ingest cs target at c h k =
    ground (arith, may_revoke-live cs target at c h, count-without_ingest cs target at)

-- Among keys with distinct ids, where the project could take events and a key may be revoked, the
-- project can still take events once that key is gone.
pub may_revoke_safe :
    (cs : List CredentialFacts) (target : String) (at : Instant) (c : CredentialFacts)
    → Distinct cs
    → can_ingest cs at ≡ true
    → may_revoke cs target at ≡ ok c
    → can_ingest (without target cs) at ≡ true
may_revoke_safe cs target at c d h k = elim (Kind-cases c.kind) [
  | inl is ↦ may_revoke-ingest cs target at c k is
  | inr is ↦
      rw
        (without_service cs target at c d
          (live_found cs target at c (may_revoke-live cs target at c k)).0 is)
        h
]

-- A usable key that is found under its id may be revoked exactly where it is a service key or, with
-- the keys of its id left out, a usable ingest key remains.
pub may_revoke_iff :
    (cs : List CredentialFacts) (target : String) (at : Instant) (c : CredentialFacts)
    → find (λ d. d.id == target) cs ≡ some c
    → is_usable c at ≡ true
    → (may_revoke cs target at ≡ ok c)
      ↔ ((c.kind ≡ service) ⊎ (can_ingest (without target cs) at ≡ true))
unfolding may_revoke is_usable
may_revoke_iff cs target at c h u =
    ground (arith, Kind-cases c.kind, count-without_ingest cs target at)

name_clash :
    (cs : List CredentialFacts) (name : String) (at : Instant)
    → find (λ c. is_usable c at && c.name == name) cs ≡ none
    → All (λ c. is_usable c at ≡ true → c.name ≢ name) cs
name_clash [] name at h = tt
name_clash (c ∷ cs) name at h =
    (λ u e. ground (arith, eq_iff c.name name), name_clash cs name at (ground arith))

-- A name that is given out is trimmed, and no key that still works has it.
pub name_is_available_fresh :
    (cs : List CredentialFacts) (name given : String) (at : Instant)
    → name_is_available cs name at ≡ ok given
    → (given ≡ trim name) × All (λ c. is_usable c at ≡ true → c.name ≢ given) cs
unfolding name_is_available
name_is_available_fresh cs name given at h =
    let e : given ≡ trim name = ground arith in
    let free : find (λ c. is_usable c at && c.name == trim name) cs ≡ none = ground arith in
    (e, rw e (name_clash cs (trim name) at free))

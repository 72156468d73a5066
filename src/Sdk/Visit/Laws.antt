-- ===== src/Sdk/Visit/Laws.antt =====
-- Which visits the events of a client are in.
use counted.Base.{List, [], ◌∷◌, some, String, ◌≡◌, refl, arith, All}
use counted.Base.Int.{◌≤ℤ◌, ◌-ℤ◌}
use counted.Kernel.Instant.{Instant, Duration, between}
use counted.Sdk.Visit.{Visit, current, has_expired}

module _ (mint : Instant → String) where
  -- The visits that are reported for events at these instants.
  abbrev pub visits : Visit → List Instant → List String
  visits v [] = []
  visits v (at ∷ later) = let r = current mint v at in r.reported ∷ visits r.visit later

  -- No gap between one event and the next is longer than the idle time.
  abbrev pub AreClose : Duration → Instant → List Instant → Type 0
  AreClose idle last [] = Unit
  AreClose idle last (at ∷ later) = (at -ℤ last ≤ℤ idle) × AreClose idle at later

  current-kept :
      (v : Visit) (id : String) (at : Instant)
      → v.id ≡ some id
      → at -ℤ v.last_activity ≤ℤ v.idle
      → current mint v at
        ≡ record { reported = id; visit = record v { id = some id; last_activity = at } }
  unfolding current has_expired between
  current-kept v id at known close = ground arith

  -- While no two events of a client in a visit are further apart than the idle time, all of them are
  -- in that visit, however long it lasts.
  pub visits_kept :
      (v : Visit) (id : String) (events : List Instant)
      → v.id ≡ some id
      → AreClose v.idle v.last_activity events
      → All (λ visit. visit ≡ id) (visits v events)
  visits_kept v id [] known close = tt
  visits_kept v id (at ∷ later) known (near, rest) =
      rw (current-kept v id at known near)
        (refl, visits_kept (record v { id = some id; last_activity = at }) id later refl rest)

-- ===== src/Ingestion/GroupCommit/Drain/Pumps.antt =====
-- What a pump does once the server is shutting down.
use counted.Base.{
  ◌≤◌, ◌<◌, ◌⊎◌, inl, inr, true, List, [], ◌∷◌, ◌≡◌, refl, arith, length, ltb, Bool-cases,
}
use counted.Kernel.Instant.{Instant}
use counted.Ingestion.Policy.{GroupCommitPolicy, decide, decide_on, flush_reason}
use counted.Ingestion.GroupCommit.{State, Group, pump, pump_over, consider, start}
use counted.Ingestion.GroupCommit.Pump.{AreDistinct, flushed, IsKept, pump_rule, start_lem}

-- What holds while a shutdown goes on: unless no group is left, a commit is in flight.
pub record IsMoving (s : State) : Type 0 where
  pub flagged : s.draining ≡ true
  pub distinct : AreDistinct s.groups
  pub moving : (s.groups ≡ []) ⊎ (0 < length s.commits)

module _ (policy : GroupCommitPolicy) (at : Instant) where
  consider_full :
      (g : Group) (s : State) → policy.max_in_flight ≤ length s.commits → consider policy at g s ≡ s
  unfolding consider decide decide_on flush_reason
  consider_full g s h = ground arith

  pub record IsSpent (s : State) : Type 0 where
    pub spent : (s.groups ≡ []) ⊎ (policy.max_in_flight ≤ length s.commits)

  pump_over_none : (s : State) → s.groups ≡ [] → IsSpent (pump_over policy at [] s)
  unfolding pump_over
  pump_over_none s e = record { spent = inl e }

  pump_over_full :
      (gs : List Group) (s : State)
      → policy.max_in_flight ≤ length s.commits
      → pump_over policy at gs s ≡ s
  unfolding pump_over
  pump_over_full [] s h = refl
  pump_over_full (g ∷ gs) s h = rw (consider_full g s h) (pump_over_full gs s h)

  consider_drains :
      (g : Group) (s : State)
      → s.draining ≡ true
      → length s.commits < policy.max_in_flight
      → consider policy at g s ≡ start g s
  unfolding consider decide decide_on flush_reason
  consider_drains g s d h = ground arith

  pump_over_next :
      (g : Group) (rest : List Group) (s : State)
      → pump_over policy at (g ∷ rest) s ≡ pump_over policy at rest (consider policy at g s)
  unfolding pump_over
  pump_over_next g rest s = refl

  -- No group is left behind but for want of room.
  pub pump_over_drains :
      (rest : List Group) (s : State)
      → s.groups ≡ rest
      → AreDistinct rest
      → s.draining ≡ true
      → IsSpent (pump_over policy at rest s)
  pump_over_drains [] s e d h = pump_over_none s e
  pump_over_drains (g ∷ rest) s e d h =
      elim (Bool-cases (ltb (length s.commits) policy.max_in_flight)) [
        | inl room ↦
            rw
              (
                pump_over_next g rest s,
                consider_drains g s h (ground (arith, room)),
                start_lem [] g rest s e d,
              )
              (pump_over_drains rest (flushed [] g rest s) refl d.1 h)
        | inr full ↦
            let enough : policy.max_in_flight ≤ length s.commits = ground (arith, full) in
            rw (pump_over_next g rest s, consider_full g s enough, pump_over_full rest s enough)
              (record { spent = inr enough })
      ]

  draining-keeps : IsKept policy (λ s. s.draining ≡ true)
  draining-keeps s kept g rest e room h = h

  -- A pump brings it about.
  pub pump-IsMoving :
      (s : State)
      → 0 < policy.max_in_flight
      → s.draining ≡ true
      → AreDistinct s.groups
      → IsMoving (pump policy at s)
  unfolding pump
  pump-IsMoving s room h d =
      let after = pump_rule policy _ draining-keeps at s d h in
      record {
        flagged = after.kept;
        distinct = after.distinct;
        moving = elim (pump_over_drains s.groups s refl d h).spent [
          | inl none ↦ inl none
          | inr full ↦ inr (omega (arith, full, room))
        ];
      }

-- ===== src/Ingestion/GroupCommit/Pump.antt =====
-- What a pump does: one after another, groups leave the map for the commits.
use mathlib.Core.List.{append_assoc}
use counted.Base.{
  ◌-◌, ◌<◌, true, false, List, [], ◌∷◌, ◌++◌, ◌≡◌, refl, sym, ◌∙◌, arith, length, All, All-append,
  All-split, String, Bool-cases, inl, inr, text_equality,
}
use counted.Kernel.Instant.{Instant}
use counted.Ingestion.Policy.{GroupCommitPolicy, decide, decide_on, flush_reason}
use counted.Ingestion.GroupCommit.{
  State, Group, writing, start, consider, pump_over, pump, is_of, without, decision, is_flush,
}

-- No two groups are of one project.
abbrev pub AreDistinct : List Group → Type 0
AreDistinct [] = Unit
AreDistinct (g ∷ gs) = All (λ h. is_of g.project h ≡ false) gs × AreDistinct gs

abbrev pub flushed : List Group → Group → List Group → State → State
flushed kept g rest s = record s {
  groups = kept ++ rest;
  commits = s.commits ++ writing g ∷ [];
  buffered = s.buffered - length g.events;
}

without-none :
    (project : String) (gs : List Group)
    → All (λ h. is_of project h ≡ false) gs
    → without project gs ≡ gs
without-none project [] h = refl
without-none project (g ∷ gs) h = ground (arith, without-none project gs h.1)

without-one :
    (kept : List Group) (g : Group) (rest : List Group)
    → AreDistinct (kept ++ g ∷ rest)
    → without g.project (kept ++ g ∷ rest) ≡ kept ++ rest
without-one [] g rest h =
    ground (arith, without-none g.project rest h.0, text_equality.same_iff g.project g.project)
without-one (k ∷ kept) g rest h = ground (
  arith,
  without-one kept g rest h.1,
  (All-split (λ g'. is_of k.project g' ≡ false) kept (g ∷ rest) h.0).1,
  text_equality.same_iff k.project g.project,
  text_equality.same_iff g.project k.project,
)

pub AreDistinct-drop :
    (kept : List Group) (g : Group) (rest : List Group)
    → AreDistinct (kept ++ g ∷ rest)
    → AreDistinct (kept ++ rest)
AreDistinct-drop [] g rest h = h.1
AreDistinct-drop (k ∷ kept) g rest h =
    let (before, after) = All-split (λ h. is_of k.project h ≡ false) kept (g ∷ rest) h.0 in
    (All-append _ kept rest before after.1, AreDistinct-drop kept g rest h.1)

pub start_lem :
    (kept : List Group) (g : Group) (rest : List Group) (s : State)
    → s.groups ≡ kept ++ g ∷ rest
    → AreDistinct (kept ++ g ∷ rest)
    → start g s ≡ flushed kept g rest s
unfolding start
start_lem kept g rest s e d = rw (e, without-one kept g rest d) refl

decision_room :
    (policy : GroupCommitPolicy) (at : Instant) (g : Group) (s : State)
    → is_flush policy (decision policy at g s) ≡ true
    → length s.commits < policy.max_in_flight
unfolding decide decide_on flush_reason
decision_room policy at g s h = ground arith

module _ (policy : GroupCommitPolicy) (P : State → Type 0) where
  -- What a pump keeps: whatever the flush of one group keeps, while there is room for one more commit.
  abbrev pub IsKept : Type 0
  IsKept =
      (s : State) (kept : List Group) (g : Group) (rest : List Group)
      → s.groups ≡ kept ++ g ∷ rest
      → length s.commits < policy.max_in_flight
      → P s
      → P (flushed kept g rest s)

  pub record Pumped (s : State) : Type 0 where
    pub kept : P s
    pub distinct : AreDistinct s.groups

  pump_over_rule :
      IsKept
      → (at : Instant) (kept rest : List Group) (s : State) → s.groups ≡ kept ++ rest
      → AreDistinct (kept ++ rest)
      → P s
      → Pumped (pump_over policy at rest s)
  unfolding pump_over consider
  pump_over_rule keep at kept [] s e d h = record { kept = h; distinct = rw e d }
  pump_over_rule keep at kept (g ∷ rest) s e d h =
      elim (Bool-cases (is_flush policy (decision policy at g s))) [
        | inl goes ↦
            let moved = start_lem kept g rest s e d in
            rw (goes, moved)
              (pump_over_rule keep at kept rest (flushed kept g rest s) refl
                (AreDistinct-drop kept g rest d)
                (keep s kept g rest e (decision_room policy at g s goes) h))
        | inr stays ↦ rw stays (
            pump_over_rule keep at (kept ++ g ∷ []) rest s
              (e ∙ sym (append_assoc kept (g ∷ []) rest)) (rw (append_assoc kept (g ∷ []) rest) d)
              h)
      ]

  pub pump_rule :
      IsKept → (at : Instant) (s : State) → AreDistinct s.groups → P s → Pumped (pump policy at s)
  unfolding pump
  pump_rule keep at s d h = pump_over_rule keep at [] s.groups s refl d h

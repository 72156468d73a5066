-- ===== src/Tenancy/Workspace/Cap.antt =====
-- The project cap: the paths that make a project active, and the way back from archiving.
use counted.Base.{
  ℕ, ◌≤◌, ◌<◌, ◌+◌, [], ◌∷◌, String, Option, none, some, ◌≡◌, not, arith, ◌⊎◌, inl, inr, trim, ◌==◌,
  text_equality, Option-cases,
}
use counted.Kernel.Result.{ok}
use counted.Kernel.Instant.{Instant}
use counted.Tenancy.Limits.{breached}
use counted.Tenancy.ProjectCount.{ProjectEntry, active, archived, find_project}
use counted.Tenancy.ProjectCount.Laws.{
  Distinct, count-cons, count-append, count-filter-le, count_lem,
}
use counted.Tenancy.Workspace.{
  Workspace, WorkspaceApplied, limits, project_count, rename, register_project, archive_project,
  restore_project, deregister_project,
}
use counted.Tenancy.Workspace.Invariant.{
  Command, renamed, registered, archives, restores, deregisters, IsValid,
}
use counted.Tenancy.Workspace.Slots.{count-replace}

-- A limit that is not `null` is not passed.
abbrev pub Within : ℕ → Option ℕ → Type 0
Within n none = Unit
Within n (some limit) = n ≤ limit

Within-of_room : (n : ℕ) (limit : Option ℕ) → breached n limit ≡ none → Within (n + 1) limit
unfolding breached
Within-of_room n none h = tt
Within-of_room n (some limit) h = ground arith

Within-le : (m n : ℕ) (limit : Option ℕ) → m ≤ n → Within n limit → Within m limit
Within-le m n none h k = tt
Within-le m n (some limit) h k = omega arith

-- The count after a command: no higher than before, or within the cap.
abbrev CapKept : Workspace → Workspace → Type 0
CapKept w v =
    (project_count v ≤ project_count w)
    ⊎ ((breached (project_count w) (limits w).max_projects ≡ none)
        × (project_count v ≡ project_count w + 1)
        × ((limits v).max_projects ≡ (limits w).max_projects))

rename-CapKept :
    (w : Workspace) (name : String) (at : Instant) (a : WorkspaceApplied)
    → rename w name at ≡ ok a
    → CapKept w a.workspace
unfolding rename
rename-CapKept w name at a h = ground arith

register-CapKept :
    (w : Workspace) (id name : String) (at : Instant) (a : WorkspaceApplied)
    → register_project w id name at ≡ ok a
    → CapKept w a.workspace
unfolding register_project
register-CapKept w id name at a h =
    let entry : ProjectEntry = record { id = id; name = trim name; state = active } in
    ground (arith, count-append w.projects (entry ∷ []), count-cons entry [], count_lem [])

archive-CapKept :
    (w : Workspace) (id : String) (at : Instant) (a : WorkspaceApplied)
    → Distinct w.projects
    → archive_project w id at ≡ ok a
    → CapKept w a.workspace
unfolding archive_project
archive-CapKept w id at a d h = elim (Option-cases (find_project w.projects id)) [
  | inl e ↦ ground arith
  | inr (entry, e) ↦
      ground (arith, count-replace id (record entry { state = archived }) entry w.projects d e)
]

restore-CapKept :
    (w : Workspace) (id : String) (at : Instant) (a : WorkspaceApplied)
    → Distinct w.projects
    → restore_project w id at ≡ ok a
    → CapKept w a.workspace
unfolding restore_project
restore-CapKept w id at a d h = elim (Option-cases (find_project w.projects id)) [
  | inl e ↦ ground arith
  | inr (entry, e) ↦
      ground (arith, count-replace id (record entry { state = active }) entry w.projects d e)
]

deregister-CapKept :
    (w : Workspace) (id : String) (at : Instant) (a : WorkspaceApplied)
    → deregister_project w id at ≡ ok a
    → CapKept w a.workspace
unfolding deregister_project
deregister-CapKept w id at a h =
    ground (arith, count-filter-le (λ (p : ProjectEntry). not (p.id == id)) w.projects)

Command-CapKept : {w v : Workspace} → Command w v → Distinct w.projects → CapKept w v
Command-CapKept (renamed name at h) d = rename-CapKept _ name at _ h
Command-CapKept (registered id name at h) d = register-CapKept _ id name at _ h
Command-CapKept (archives id at h) d = archive-CapKept _ id at _ d h
Command-CapKept (restores id at h) d = restore-CapKept _ id at _ d h
Command-CapKept (deregisters id at h) d = deregister-CapKept _ id at _ h

-- A command on a valid workspace that raises the number of active projects leaves it within the
-- cap that the plan and its payment confer.
pub raise-Within :
    {w v : Workspace}
    → IsValid w
    → Command w v
    → project_count w < project_count v
    → Within (project_count v) (limits v).max_projects
raise-Within {w} {v} valid c h = elim (Command-CapKept c valid.distinct) [
  | inl kept ↦ absurd (omega arith)
  | inr (room, more, same) ↦ rw (same, more) (Within-of_room _ _ room)
]

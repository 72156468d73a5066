-- ===== src/Tenancy/Workspace/Invariant.antt =====
-- What the commands of a workspace keep.
use counted.Base.{
  ℕ, String, ◌≡◌, false, not, arith, inl, inr, is_empty, trim, trim_idem, ◌==◌, text_equality,
  Option-cases,
}
use counted.Kernel.Result.{ok}
use counted.Kernel.Instant.{Instant}
use counted.Tenancy.ProjectCount.{ProjectEntry, active, archived, find_project}
use counted.Tenancy.ProjectCount.Laws.{Distinct, Distinct-concat, Distinct-filter, find-id}
use counted.Tenancy.Workspace.{
  Workspace, WorkspaceApplied, WorkspaceStanding, open_workspace, rename, register_project,
  archive_project, restore_project, deregister_project, apply_standing,
}
use counted.Tenancy.Workspace.Slots.{Distinct-replace}

pub record IsValid (w : Workspace) : Type 0 where
  pub named : is_empty w.name ≡ false
  pub trimmed : trim w.name ≡ w.name
  pub distinct : Distinct w.projects

-- A command that succeeded, with the workspace that it left.
pub data Command : Workspace → Workspace → Type 0 where
  renamed :
      {w : Workspace} {a : WorkspaceApplied} (name : String) (at : Instant)
      → rename w name at ≡ ok a
      → Command w a.workspace
  registered :
      {w : Workspace} {a : WorkspaceApplied} (id name : String) (at : Instant)
      → register_project w id name at ≡ ok a
      → Command w a.workspace
  archives :
      {w : Workspace} {a : WorkspaceApplied} (id : String) (at : Instant)
      → archive_project w id at ≡ ok a
      → Command w a.workspace
  restores :
      {w : Workspace} {a : WorkspaceApplied} (id : String) (at : Instant)
      → restore_project w id at ≡ ok a
      → Command w a.workspace
  deregisters :
      {w : Workspace} {a : WorkspaceApplied} (id : String) (at : Instant)
      → deregister_project w id at ≡ ok a
      → Command w a.workspace

-- A command, or word from the payment provider.
pub data Step : Workspace → Workspace → Type 0 where
  command : {w v : Workspace} → Command w v → Step w v
  standing :
      (w : Workspace) (s : WorkspaceStanding) (seats : ℕ) (at : Instant)
      → Step w (apply_standing w s seats at).workspace

pub data Reach (w : Workspace) : Workspace → Type 0 where
  here : Reach w w
  next : {u v : Workspace} → Reach w u → Step u v → Reach w v

rename-IsValid :
    (w : Workspace) (name : String) (at : Instant) (a : WorkspaceApplied)
    → IsValid w
    → rename w name at ≡ ok a
    → IsValid a.workspace
unfolding rename
rename-IsValid w name at a v h = ground (arith, trim_idem name)

register-IsValid :
    (w : Workspace) (id name : String) (at : Instant) (a : WorkspaceApplied)
    → IsValid w
    → register_project w id name at ≡ ok a
    → IsValid a.workspace
unfolding register_project
register-IsValid w id name at a v h = ground (
  arith,
  Distinct-concat w.projects (record { id = id; name = trim name; state = active }) v.distinct,
)

archive-IsValid :
    (w : Workspace) (id : String) (at : Instant) (a : WorkspaceApplied)
    → IsValid w
    → archive_project w id at ≡ ok a
    → IsValid a.workspace
unfolding archive_project
archive-IsValid w id at a v h = elim (Option-cases (find_project w.projects id)) [
  | inl e ↦ ground arith
  | inr (entry, e) ↦ ground (
    arith,
    Distinct-replace id (record entry { state = archived }) w.projects (find-id w.projects id e)
        v.distinct,
  )
]

restore-IsValid :
    (w : Workspace) (id : String) (at : Instant) (a : WorkspaceApplied)
    → IsValid w
    → restore_project w id at ≡ ok a
    → IsValid a.workspace
unfolding restore_project
restore-IsValid w id at a v h = elim (Option-cases (find_project w.projects id)) [
  | inl e ↦ ground arith
  | inr (entry, e) ↦ ground (
    arith,
    Distinct-replace id (record entry { state = active }) w.projects (find-id w.projects id e)
        v.distinct,
  )
]

deregister-IsValid :
    (w : Workspace) (id : String) (at : Instant) (a : WorkspaceApplied)
    → IsValid w
    → deregister_project w id at ≡ ok a
    → IsValid a.workspace
unfolding deregister_project
deregister-IsValid w id at a v h =
    ground (arith, Distinct-filter (λ (p : ProjectEntry). not (p.id == id)) w.projects v.distinct)

pub Step-IsValid : {w v : Workspace} → Step w v → IsValid w → IsValid v
unfolding apply_standing
Step-IsValid (command (renamed name at h)) v = rename-IsValid _ name at _ v h
Step-IsValid (command (registered id name at h)) v = register-IsValid _ id name at _ v h
Step-IsValid (command (archives id at h)) v = archive-IsValid _ id at _ v h
Step-IsValid (command (restores id at h)) v = restore-IsValid _ id at _ v h
Step-IsValid (command (deregisters id at h)) v = deregister-IsValid _ id at _ v h
Step-IsValid (standing w s seats at) v = record {
  named = v.named;
  trimmed = v.trimmed;
  distinct = v.distinct;
}

open-IsValid :
    (id name founder : String) (at : Instant) (a : WorkspaceApplied)
    → open_workspace id name founder at ≡ ok a
    → IsValid a.workspace
unfolding open_workspace
open-IsValid id name founder at a h = ground (arith, trim_idem name)

-- Whatever happens to a workspace after it was opened, its name is trimmed and not empty, and no
-- two of its projects have one id.
pub Reach-IsValid :
    (id name founder : String) (at : Instant) (a : WorkspaceApplied) {v : Workspace}
    → open_workspace id name founder at ≡ ok a
    → Reach a.workspace v
    → IsValid v
Reach-IsValid id name founder at a h here = open-IsValid id name founder at a h
Reach-IsValid id name founder at a h (next r st) =
    Step-IsValid st (Reach-IsValid id name founder at a h r)

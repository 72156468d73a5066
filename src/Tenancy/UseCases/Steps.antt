-- ===== src/Tenancy/UseCases/Steps.antt =====
-- What a use case of the projects does to the store, in a transaction of its own.
use counted.Base.{[], Option, none, some, String, ◌≡◌, refl}
use counted.Kernel.Instant.{Instant}
use counted.Kernel.Result.{ok, err}
use counted.Tenancy.Workspace.{Workspace, Outcome, open_workspace}
use counted.Tenancy.Store.{Store, find_workspace}
use counted.Tenancy.UseCases.{
  saved, mutate, mutate_found, provision_workspace, provisioned, reserve_project_slot,
  release_project_slot, restore_project_slot, drop_project_slot,
}

abbrev pub empty : Store
empty = record { workspaces = []; subscriptions = []; claimed = []; processed = []; published = [] }

-- The id of a workspace that is provisioned is a new one.
pub data UseCase (s : Store) : Store → Type 0 where
  provisions :
      (id name founder : String) (at : Instant)
      → find_workspace s id ≡ none
      → UseCase s (provision_workspace s id name founder at).0
  reserves :
      (workspace project name : String) (at : Instant)
      → UseCase s (reserve_project_slot s workspace project name at).0
  releases :
      (workspace project : String) (at : Instant)
      → UseCase s (release_project_slot s workspace project at).0
  restores :
      (workspace project : String) (at : Instant)
      → UseCase s (restore_project_slot s workspace project at).0
  drops :
      (workspace project : String) (at : Instant)
      → UseCase s (drop_project_slot s workspace project at).0

saved-claimed : (s : Store) (o : Outcome) → (saved s o).0.claimed ≡ s.claimed
saved-claimed s (err error) = refl
saved-claimed s (ok a) = refl

mutate_found-claimed :
    (s : Store) (id : String) (command : Workspace → Outcome) (o : Option Workspace)
    → (mutate_found s id command o).0.claimed ≡ s.claimed
mutate_found-claimed s id command none = refl
mutate_found-claimed s id command (some w) = saved-claimed s (command w)

mutate-claimed :
    (s : Store) (id : String) (command : Workspace → Outcome)
    → (mutate s id command).0.claimed ≡ s.claimed
unfolding mutate
mutate-claimed s id command = mutate_found-claimed s id command (find_workspace s id)

provisioned-claimed :
    (s : Store) (id : String) (at : Instant) (o : Outcome)
    → (provisioned s id at o).0.claimed ≡ s.claimed
provisioned-claimed s id at (err error) = refl
provisioned-claimed s id at (ok a) = refl

-- None of them touches the ledger.
pub UseCase-claimed : {s t : Store} → UseCase s t → t.claimed ≡ s.claimed
unfolding provision_workspace reserve_project_slot release_project_slot restore_project_slot
    drop_project_slot
UseCase-claimed {s = s} (provisions id name founder at fresh) =
    provisioned-claimed s id at (open_workspace id name founder at)
UseCase-claimed {s = s} (reserves workspace project name at) = mutate-claimed s workspace _
UseCase-claimed {s = s} (releases workspace project at) = mutate-claimed s workspace _
UseCase-claimed {s = s} (restores workspace project at) = mutate-claimed s workspace _
UseCase-claimed {s = s} (drops workspace project at) = mutate-claimed s workspace _

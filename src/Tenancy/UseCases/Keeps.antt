-- ===== src/Tenancy/UseCases/Keeps.antt =====
-- What the use cases of the projects keep, one workspace at a time.
use counted.Base.{
  false, Option, none, some, String, ◌≡◌, refl, sym, ◌∙◌, ap, arith, ◌==◌, text_equality,
  if◌then◌else◌, Bool-cases, inl, inr,
}
use counted.Kernel.Instant.{Instant}
use counted.Kernel.Result.{ok, err}
use counted.Tenancy.Plan.{PlanId}
use counted.Tenancy.Entitlement.{PaymentState}
use counted.Tenancy.Subscription.{Subscription, none_for}
use counted.Tenancy.Workspace.{
  Workspace, Outcome, open_workspace, register_project, archive_project, restore_project,
  deregister_project,
}
use counted.Tenancy.Store.{Store, find_workspace, find_subscription}
use counted.Tenancy.Store.Laws.{find-upsert}
use counted.Tenancy.UseCases.{
  saved, mutate, mutate_found, provision_workspace, provisioned, reserve_project_slot,
  release_project_slot, restore_project_slot, drop_project_slot,
}
use counted.Tenancy.UseCases.Steps.{UseCase, provisions, reserves, releases, restores, drops}
use counted.Tenancy.UseCases.InStep.{Agree, save_workspace-Agree, save_both-Agree}

-- What a command on projects leaves of a workspace.
abbrev pub Keeps : Workspace → Outcome → Type 0
Keeps w (err error) = Unit
Keeps w (ok a) =
    (a.workspace.id ≡ w.id) × (a.workspace.plan ≡ w.plan) × (a.workspace.payment ≡ w.payment)

abbrev pub IsOpened : String → Outcome → Type 0
IsOpened id (err error) = Unit
IsOpened id (ok a) =
    (a.workspace.id ≡ id)
    × (a.workspace.plan ≡ PlanId.free)
    × (a.workspace.payment ≡ PaymentState.none)

open-IsOpened :
    (id name founder : String) (at : Instant) → IsOpened id (open_workspace id name founder at)
unfolding open_workspace
open-IsOpened id name founder at = ground arith

register-Keeps :
    (w : Workspace) (project name : String) (at : Instant)
    → Keeps w (register_project w project name at)
unfolding register_project
register-Keeps w project name at = ground arith

archive-Keeps :
    (w : Workspace) (project : String) (at : Instant) → Keeps w (archive_project w project at)
unfolding archive_project
archive-Keeps w project at = ground arith

restore-Keeps :
    (w : Workspace) (project : String) (at : Instant) → Keeps w (restore_project w project at)
unfolding restore_project
restore-Keeps w project at = ground arith

deregister-Keeps :
    (w : Workspace) (project : String) (at : Instant) → Keeps w (deregister_project w project at)
unfolding deregister_project
deregister-Keeps w project at = ground arith

-- At this id the workspace and the subscription agree.
abbrev pub AgreeAt : Store → String → Type 0
AgreeAt s id = Agree (find_workspace s id) (find_subscription s id)

-- There is a workspace at this id, and what subscription it has.
pub record Has (s : Store) (place : String) (x : Option Subscription) : Type 0 where
  pub workspace : Workspace
  pub known : find_workspace s place ≡ some workspace
  pub own : find_subscription s place ≡ x

module _ (other : String) where
  saved-Agree :
      (s : Store) (w : Workspace) (id : String) (o : Outcome)
      → find_workspace s id ≡ some w
      → Keeps w o
      → AgreeAt s other
      → AgreeAt (saved s o).0 other
  saved-Agree s w id (err error) found k h = h
  saved-Agree s w id (ok a) found k h =
      save_workspace-Agree s w a.workspace a.events id other found k.0 k.1 k.2 h

  mutate-Agree :
      (s : Store) (id : String) (command : Workspace → Outcome)
      → ((w : Workspace) → Keeps w (command w))
      → AgreeAt s other
      → AgreeAt (mutate s id command).0 other
  unfolding mutate
  mutate-Agree s id command keeps h = go (find_workspace s id) refl
    where
      go :
          (o : Option Workspace)
          → find_workspace s id ≡ o
          → AgreeAt (mutate_found s id command o).0 other
      go none e = h
      go (some w) e = saved-Agree s w id (command w) e (keeps w) h

  provisioned-Agree :
      (s : Store) (id : String) (at : Instant) (o : Outcome)
      → IsOpened id o
      → AgreeAt s other
      → AgreeAt (provisioned s id at o).0 other
  unfolding none_for
  provisioned-Agree s id at (err error) k h = h
  provisioned-Agree s id at (ok a) k h =
      save_both-Agree s a.workspace (none_for id at) _ _ other refl refl (sym k.0) (sym k.1)
        (sym k.2) h

  -- A use case leaves them in agreement.
  pub UseCase-Agree : {s t : Store} → UseCase s t → AgreeAt s other → AgreeAt t other
  unfolding provision_workspace reserve_project_slot release_project_slot restore_project_slot
      drop_project_slot
  UseCase-Agree {s = s} (provisions id name founder at fresh) h =
      provisioned-Agree s id at (open_workspace id name founder at)
        (open-IsOpened id name founder at) h
  UseCase-Agree {s = s} (reserves workspace project name at) h =
      mutate-Agree s workspace _ (λ w. register-Keeps w project name at) h
  UseCase-Agree {s = s} (releases workspace project at) h =
      mutate-Agree s workspace _ (λ w. archive-Keeps w project at) h
  UseCase-Agree {s = s} (restores workspace project at) h =
      mutate-Agree s workspace _ (λ w. restore-Keeps w project at) h
  UseCase-Agree {s = s} (drops workspace project at) h =
      mutate-Agree s workspace _ (λ w. deregister-Keeps w project at) h

saved-Has :
    (s : Store) (place : String) (x : Option Subscription) (o : Outcome)
    → Has s place x
    → Has (saved s o).0 place x
saved-Has s place x (err error) h = h
saved-Has s place x (ok a) h =
    let moved = find-upsert (λ (w : Workspace). w.id) a.workspace s.workspaces place in
    elim (Bool-cases (a.workspace.id == place)) [
      | inl here ↦ record {
        workspace = a.workspace;
        known = moved ∙ ap (λ b. if b then some a.workspace else find_workspace s place) here;
        own = h.own;
      }
      | inr elsewhere ↦ record {
        workspace = h.workspace;
        known =
            moved
            ∙ ap (λ b. if b then some a.workspace else find_workspace s place) elsewhere
            ∙ h.known;
        own = h.own;
      }
    ]

mutate-Has :
    (s : Store) (id : String) (command : Workspace → Outcome) (place : String)
    (x : Option Subscription)
    → Has s place x
    → Has (mutate s id command).0 place x
unfolding mutate
mutate-Has s id command place x h = go (find_workspace s id)
  where
    go : (o : Option Workspace) → Has (mutate_found s id command o).0 place x
    go none = h
    go (some w) = saved-Has s place x (command w) h

provisioned-Has :
    (s : Store) (id : String) (at : Instant) (o : Outcome) (place : String)
    (x : Option Subscription)
    → IsOpened id o
    → find_workspace s id ≡ none
    → Has s place x
    → Has (provisioned s id at o).0 place x
unfolding none_for
provisioned-Has s id at (err error) place x k fresh h = h
provisioned-Has s id at (ok a) place x k fresh h =
    let apart : (id == place) ≡ false = elim (Bool-cases (id == place)) [
      | inl same ↦
          let there : id ≡ place = (text_equality.same_iff id place).0 same in
          let clash : none ≡ some h.workspace = sym fresh ∙ ap (find_workspace s) there ∙ h.known in
          absurd (ground (arith, clash))
      | inr differs ↦ differs
    ] in
    record {
      workspace = h.workspace;
      known =
          find-upsert (λ (w : Workspace). w.id) a.workspace s.workspaces place
          ∙ ap (λ other. if other == place then some a.workspace else find_workspace s place) k.0
          ∙ ap (λ b. if b then some a.workspace else find_workspace s place) apart
          ∙ h.known;
      own =
          find-upsert (λ (y : Subscription). y.workspace) (none_for id at) s.subscriptions place
          ∙ ap (λ b. if b then some (none_for id at) else find_subscription s place) apart
          ∙ h.own;
    }

-- A use case takes neither away.
pub UseCase-Has :
    {s t : Store} (place : String) (x : Option Subscription)
    → UseCase s t
    → Has s place x
    → Has t place x
unfolding provision_workspace reserve_project_slot release_project_slot restore_project_slot
    drop_project_slot
UseCase-Has {s = s} place x (provisions id name founder at fresh) h =
    provisioned-Has s id at (open_workspace id name founder at) place x
      (open-IsOpened id name founder at) fresh h
UseCase-Has {s = s} place x (reserves workspace project name at) h =
    mutate-Has s workspace _ place x h
UseCase-Has {s = s} place x (releases workspace project at) h = mutate-Has s workspace _ place x h
UseCase-Has {s = s} place x (restores workspace project at) h = mutate-Has s workspace _ place x h
UseCase-Has {s = s} place x (drops workspace project at) h = mutate-Has s workspace _ place x h

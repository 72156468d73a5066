-- ===== src/Tenancy/UseCases.antt =====
-- packages/tenancy/app/src: project-cap.ts, provision-workspace.ts and entitlements.ts, over the store.
pub mod InStep
pub mod Steps
pub mod Keeps
use counted.Base.{ℕ, Option, none, some, String}
use counted.Kernel.Instant.{Instant}
use counted.Kernel.Result.{Result, ok, err}
use counted.Tenancy.Subscription.{Subscription, none_for}
use counted.Tenancy.Workspace.{
  Workspace, WorkspaceApplied, WorkspaceError, SeatAllowance, Outcome, open_workspace,
  register_project, archive_project, restore_project, deregister_project, may_admit_seat,
}
use counted.Tenancy.Store.{Store, find_workspace, save_workspace, save_subscription}

-- `NoSuchWorkspace`, which only the use cases make, beside the errors of the workspace.
pub data UseCaseError : Type 0 where
  no_such_workspace : String → UseCaseError
  refused : WorkspaceError → UseCaseError

abbrev pub Reply : Type 0
Reply = Store × Result Workspace UseCaseError

abbrev pub saved : Store → Outcome → Reply
saved s (err error) = (s, err (refused error))
saved s (ok a) = (save_workspace a.workspace a.events s, ok a.workspace)

abbrev pub mutate_found : Store → String → (Workspace → Outcome) → Option Workspace → Reply
mutate_found s id command none = (s, err (no_such_workspace id))
mutate_found s id command (some workspace) = saved s (command workspace)

unfoldable pub mutate : Store → String → (Workspace → Outcome) → Reply
mutate s id command = mutate_found s id command (find_workspace s id)

unfoldable pub reserve_project_slot : Store → String → String → String → Instant → Reply
unfolding mutate
reserve_project_slot s workspace project name at =
    mutate s workspace (λ w. register_project w project name at)

unfoldable pub release_project_slot : Store → String → String → Instant → Reply
unfolding mutate
release_project_slot s workspace project at = mutate s workspace (λ w. archive_project w project at)

unfoldable pub restore_project_slot : Store → String → String → Instant → Reply
unfolding mutate
restore_project_slot s workspace project at = mutate s workspace (λ w. restore_project w project at)

unfoldable pub drop_project_slot : Store → String → String → Instant → Reply
unfolding mutate
drop_project_slot s workspace project at = mutate s workspace (λ w. deregister_project w project at)

pub record ProvisionedWorkspace : Type 0 where
  pub workspace : Workspace
  pub subscription : Subscription

abbrev pub provisioned :
    Store → String → Instant → Outcome → Store × Result ProvisionedWorkspace WorkspaceError
provisioned s id at (err error) = (s, err error)
provisioned s id at (ok a) = (
  save_subscription (none_for id at) (save_workspace a.workspace a.events s),
  ok (record { workspace = a.workspace; subscription = none_for id at }),
)

unfoldable pub provision_workspace :
    Store → String → String → String → Instant → Store × Result ProvisionedWorkspace WorkspaceError
unfolding open_workspace none_for
provision_workspace s id name founder at = provisioned s id at (open_workspace id name founder at)

abbrev pub seat_reply : Result SeatAllowance WorkspaceError → Result SeatAllowance UseCaseError
seat_reply (ok allowance) = ok allowance
seat_reply (err error) = err (refused error)

unfoldable pub check_seat_allowance :
    Store → (String → ℕ) → String → Result SeatAllowance UseCaseError
unfolding may_admit_seat
check_seat_allowance s seats_of workspace = elim (find_workspace s workspace) [
  | none ↦ err (no_such_workspace workspace)
  | some found ↦ seat_reply (may_admit_seat found (seats_of workspace))
]

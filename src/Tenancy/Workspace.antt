-- ===== src/Tenancy/Workspace.antt =====
-- packages/tenancy/domain/src/workspace.ts, with its errors.ts and events.ts: the tenancy root.
-- An event's own workspace id and instant stand in each constructor, as in the source.
pub mod Slots
pub mod Invariant
pub mod Cap
pub mod Standing
use counted.Base.{
  ℕ, Bool, true, false, not, List, [], ◌∷◌, ◌++◌, map, String, Option, none, some, ◌==◌,
  text_equality, filter, is_empty, trim, if◌then◌else◌,
}
use counted.Kernel.Result.{Result, ok, err, ◌>>=◌}
use counted.Kernel.Instant.{Instant}
use counted.Tenancy.Plan.{PlanId, free, plan_eq}
use counted.Tenancy.Limits.{WorkspaceLimits, breached, over}
use counted.Tenancy.Limits
use counted.Tenancy.Entitlement.{
  PaymentState, Entitlement, resolve, to_workspace_limits, payment_eq,
}
use counted.Tenancy.Entitlement
use counted.Tenancy.ProjectCount.{
  ProjectEntry, ProjectState, active, archived, count_against_cap, find_project,
}

-- What tenancy itself refuses; the membership kinds of the union are never made here.
pub data WorkspaceError : Type 0 where
  name_required : WorkspaceError
  seat_limit_reached project_limit_reached : ℕ → WorkspaceError
  project_exists no_such_project project_already_archived project_not_archived :
      String → WorkspaceError

pub data WorkspaceEvent : Type 0 where
  workspace_opened : String → String → Instant → WorkspaceEvent
  workspace_renamed : String → String → Instant → WorkspaceEvent
  plan_changed : String → PlanId → PlanId → Instant → WorkspaceEvent
  payment_state_changed : String → PaymentState → PaymentState → Instant → WorkspaceEvent
  project_provisioned : String → String → String → Instant → WorkspaceEvent
  project_archived project_restored project_deregistered :
      String → String → Instant → WorkspaceEvent
  limits_changed : String → WorkspaceLimits → Instant → WorkspaceEvent
  over_project_limit over_seat_limit : String → ℕ → ℕ → Instant → WorkspaceEvent

pub record WorkspaceStanding : Type 0 where
  pub plan : PlanId
  pub payment : PaymentState

pub record Workspace : Type 0 where
  pub id : String
  pub name : String
  pub plan : PlanId
  pub payment : PaymentState
  pub projects : List ProjectEntry

pub record WorkspaceApplied : Type 0 where
  pub workspace : Workspace
  pub events : List WorkspaceEvent

pub record SeatAllowance : Type 0 where
  pub used : ℕ
  pub limit : Option ℕ

abbrev pub Outcome : Type 0
Outcome = Result WorkspaceApplied WorkspaceError

-- The limits are derived on each read, never stored.
abbrev pub limits : Workspace → WorkspaceLimits
limits w = to_workspace_limits (resolve w.plan w.payment)

abbrev pub project_count : Workspace → ℕ
project_count w = count_against_cap w.projects

unfoldable pub open_workspace : String → String → String → Instant → Outcome
open_workspace id name founder at =
    if is_empty (trim name)
    then err name_required
    else ok (record {
      workspace = record {
        id = id;
        name = trim name;
        plan = free;
        payment = Entitlement.none;
        projects = [];
      };
      events = workspace_opened id founder at ∷ [];
    })

unfoldable pub rename : Workspace → String → Instant → Outcome
rename w name at =
    if is_empty (trim name)
    then err name_required
    else if trim name == w.name
    then ok (record { workspace = w; events = [] })
    else ok (record {
      workspace = record w { name = trim name };
      events = workspace_renamed w.id (trim name) at ∷ [];
    })

-- `refuseIfFull`, for the paths that make a project active.
abbrev refuse_if_full : Workspace → Option WorkspaceError
refuse_if_full w = elim (breached (project_count w) (limits w).max_projects) [
  | none ↦ none
  | some limit ↦ some (project_limit_reached limit)
]

-- Go on only where `refuseIfFull` has nothing to say.
abbrev unless_refused : Option WorkspaceError → WorkspaceApplied → Outcome
unless_refused none applied = ok applied
unless_refused (some capped) applied = err capped

-- `replace`: the entry in the place of every entry with the id.
abbrev replace : String → ProjectEntry → List ProjectEntry → List ProjectEntry
replace id entry [] = []
replace id entry (p ∷ ps) = (if p.id == id then entry else p) ∷ replace id entry ps

unfoldable pub register_project : Workspace → String → String → Instant → Outcome
register_project w id name at =
    if is_empty (trim name) then err name_required else elim (find_project w.projects id) [
      | some entry ↦ err (project_exists id)
      | none ↦ unless_refused (refuse_if_full w) (record {
        workspace = record w {
          projects = w.projects ++ record { id = id; name = trim name; state = active } ∷ [];
        };
        events = project_provisioned w.id id (trim name) at ∷ [];
      })
    ]

abbrev archive_entry : Workspace → String → Instant → ProjectEntry → ProjectState → Outcome
archive_entry w id at entry archived = err (project_already_archived id)
archive_entry w id at entry active = ok (record {
  workspace = record w { projects = replace id (record entry { state = archived }) w.projects };
  events = project_archived w.id id at ∷ [];
})

unfoldable pub archive_project : Workspace → String → Instant → Outcome
archive_project w id at = elim (find_project w.projects id) [
  | none ↦ err (no_such_project id)
  | some entry ↦ archive_entry w id at entry entry.state
]

abbrev restore_entry : Workspace → String → Instant → ProjectEntry → ProjectState → Outcome
restore_entry w id at entry active = err (project_not_archived id)
restore_entry w id at entry archived = unless_refused (refuse_if_full w) (record {
  workspace = record w { projects = replace id (record entry { state = active }) w.projects };
  events = project_restored w.id id at ∷ [];
})

unfoldable pub restore_project : Workspace → String → Instant → Outcome
restore_project w id at = elim (find_project w.projects id) [
  | none ↦ err (no_such_project id)
  | some entry ↦ restore_entry w id at entry entry.state
]

unfoldable pub deregister_project : Workspace → String → Instant → Outcome
deregister_project w id at = elim (find_project w.projects id) [
  | none ↦ err (no_such_project id)
  | some entry ↦ ok (record {
    workspace = record w { projects = filter (λ p. not (p.id == id)) w.projects };
    events = project_deregistered w.id id at ∷ [];
  })
]

unfoldable pub may_admit_seat : Workspace → ℕ → Result SeatAllowance WorkspaceError
may_admit_seat w seats = elim (breached seats (limits w).max_seats) [
  | none ↦ ok (record { used = seats; limit = (limits w).max_seats })
  | some limit ↦ err (seat_limit_reached limit)
]

-- An event where there is a limit to report, and none where there is not.
abbrev report : Option ℕ → (ℕ → WorkspaceEvent) → List WorkspaceEvent
report none event = []
report (some limit) event = event limit ∷ []

abbrev change_events : Workspace → WorkspaceStanding → Instant → List WorkspaceEvent
change_events w standing at =
    (if standing.plan == w.plan then [] else plan_changed w.id w.plan standing.plan at ∷ [])
    ++ (if standing.payment == w.payment
        then []
        else payment_state_changed w.id w.payment standing.payment at ∷ [])

abbrev limit_events : Workspace → Workspace → ℕ → Instant → List WorkspaceEvent
limit_events w next seats at =
    if Limits.equal (limits w) (limits next)
    then []
    else limits_changed w.id (limits next) at
      ∷ (report (over (project_count next) (limits next).max_projects)
            (λ limit. over_project_limit w.id (project_count next) limit at)
          ++ report (over seats (limits next).max_seats)
              (λ limit. over_seat_limit w.id seats limit at))

unfoldable pub apply_standing : Workspace → WorkspaceStanding → ℕ → Instant → WorkspaceApplied
apply_standing w standing seats at =
    let next : Workspace = record w { plan = standing.plan; payment = standing.payment } in
    record {
      workspace = next;
      events = change_events w standing at ++ limit_events w next seats at;
    }

-- ===== src/Access/Tests.antt =====
-- A grant library that keeps its manual's word, and decisions of a few principals under it.
use counted.Base.{
  Bool, true, false, ◌&&◌, ◌||◌, [], ◌∷◌, String, none, some, ◌≡◌, ◌↔◌, refl, ◌==◌, text_equality,
}
use counted.Kernel.Authz.{admin, at_least, permission_eq, monitors_read, billing_write, queries_run}
use counted.Access.Principal.{service, only, ServicePrincipal}
use counted.Access.Grants.{AccessControl, permits}
use counted.Access.Grants.Table.{least_role, permits_lem}
use counted.Access.Placement.{Placement, Resource, covered, to_projects, binding_of, covers}
use counted.Access.Placement.Reach.{Reaches, covers_iff}
use counted.Access.Decide.{allow, holds, decide}
use counted.Access.Decide.Laws.{decide_iff, decide-same_workspace}

-- Grants as the two questions that may be asked of them.
pub record Asked : Type 0 where
  pub may : String → String → String → Bool
  pub above : String → String → Bool

abbrev pub tables : AccessControl
tables = record {
  Ac = Asked;
  new = record { may = λ q a r. false; above = λ q s. q == s };
  grant = λ ac n. ac;
  extend = λ ac n base. record {
    may = λ q a r. ac.may q a r || (ac.above q n && ac.may base a r);
    above = λ q s. ac.above q s || (ac.above q n && ac.above base s);
  };
  allow =
      λ ac n b t. record ac { may = λ q a r. ac.may q a r || (ac.above q n && (b == a && t == r)) };
  lock = λ ac. ac;
  granted = λ ac. ac.may;
  inherits = λ ac. ac.above;
  granted-new = λ q a r. refl;
  granted-grant = λ ac n q a r. refl;
  granted-lock = λ ac q a r. refl;
  granted-allow = λ ac n b s q a r. refl;
  granted-extend = λ ac n base q a r. refl;
  inherits-new = λ q s. refl;
  inherits-grant = λ ac n q s. refl;
  inherits-allow = λ ac n b t q s. refl;
  inherits-extend = λ ac n base q s. refl;
}

abbrev placed : Placement
placed = record { workspace = some "ws_1"; project = some "prj_1" }

abbrev subject : Resource
subject = Resource.monitor "mon_1"

abbrev key : ServicePrincipal
key = record {
  credential = "key_1";
  workspace = "ws_1";
  projects = only ("prj_0" ∷ "prj_1" ∷ []);
  permissions = queries_run ∷ monitors_read ∷ [];
  on_behalf_of = "acc_1";
}

key_allowed : decide tables (service key) monitors_read placed subject ≡ allow
unfolding decide holds covers binding_of
key_allowed = refl

decide_iff_example : (decide tables (service key) monitors_read placed subject ≡ allow) ↔ (
    (holds tables (service key) monitors_read ≡ true)
    × Reaches (binding_of (service key)) placed subject)
decide_iff_example = decide_iff tables (service key) monitors_read placed subject

decide-same_workspace_example : placed.workspace ≡ some "ws_1"
decide-same_workspace_example =
    decide-same_workspace tables (service key) monitors_read placed subject "ws_1" refl key_allowed

permits_lem_example : permits tables admin billing_write ≡ at_least admin (least_role billing_write)
permits_lem_example = permits_lem tables admin billing_write

covers_iff_example :
    (covers (to_projects none ("prj_1" ∷ [])) placed subject ≡ covered)
    ↔ Reaches (to_projects none ("prj_1" ∷ [])) placed subject
covers_iff_example = covers_iff (to_projects none ("prj_1" ∷ [])) placed subject

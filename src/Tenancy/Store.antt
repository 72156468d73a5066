-- ===== src/Tenancy/Store.antt =====
-- packages/tenancy/ports/src: what the use cases keep, as the map that each repository is. `save` puts
-- an aggregate at its key; the events that it is handed are published.
pub mod Laws
use counted.Base.{
  Bool, List, [], ◌∷◌, ◌++◌, Option, none, some, String, find, any, if◌then◌else◌, ◌==◌,
  text_equality, option_beq,
}
use counted.Tenancy.Workspace.{Workspace, WorkspaceEvent}
use counted.Tenancy.Subscription.{Subscription}

pub record Store : Type 0 where
  pub workspaces : List Workspace
  pub subscriptions : List Subscription
  -- the ids that the ledger has seen, and those that are done
  pub claimed : List String
  pub processed : List String
  pub published : List WorkspaceEvent

module _ {T : Type 0} (key : T → String) where
  abbrev pub has_key : String → T → Bool
  has_key id t = key t == id

  -- Takes the place of what has the same key, or comes last.
  unfoldable pub upsert : T → List T → List T
  upsert t [] = t ∷ []
  upsert t (u ∷ rest) =
      let others = upsert t rest in if key u == key t then t ∷ rest else u ∷ others

abbrev pub find_workspace : Store → String → Option Workspace
find_workspace s id = find (has_key (λ (w : Workspace). w.id) id) s.workspaces

abbrev pub save_workspace : Workspace → List WorkspaceEvent → Store → Store
save_workspace w events s = record s {
  workspaces = upsert (λ (x : Workspace). x.id) w s.workspaces;
  published = s.published ++ events;
}

abbrev pub find_subscription : Store → String → Option Subscription
find_subscription s workspace =
    find (has_key (λ (x : Subscription). x.workspace) workspace) s.subscriptions

abbrev pub find_by_customer : Store → String → Option Subscription
find_by_customer s customer =
    find (λ (x : Subscription). option_beq x.customer (some customer)) s.subscriptions

abbrev pub find_by_subscription_ref : Store → String → Option Subscription
find_by_subscription_ref s ref =
    find (λ (x : Subscription). option_beq x.subscription (some ref)) s.subscriptions

abbrev pub save_subscription : Subscription → Store → Store
save_subscription x s = record s {
  subscriptions = upsert (λ (y : Subscription). y.workspace) x s.subscriptions;
}

-- `claim` is true of an id that was not there.
abbrev pub is_claimed : Store → String → Bool
is_claimed s id = any (λ seen. seen == id) s.claimed

abbrev pub claim : String → Store → Store
claim id s = record s { claimed = id ∷ s.claimed }

abbrev pub mark_processed : String → Store → Store
mark_processed id s = record s { processed = id ∷ s.processed }

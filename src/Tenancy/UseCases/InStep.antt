-- ===== src/Tenancy/UseCases/InStep.antt =====
-- A workspace and its subscription stay in step, whichever use case runs.
use counted.Base.{
  Option, none, some, String, ◌≡◌, sym, ◌∙◌, ap, find, if◌then◌else◌, ◌==◌, text_equality,
  Bool-cases, inl, inr, List,
}
use mathlib.Core.Path.{subst, subst⁻¹}
use counted.Tenancy.Subscription.{Subscription}
use counted.Tenancy.Workspace.{Workspace, WorkspaceEvent}
use counted.Tenancy.Store.{
  Store, find_workspace, find_subscription, save_workspace, has_key, upsert,
}
use counted.Tenancy.Store.Laws.{find-key, find-upsert}

abbrev pub Agree : Option Workspace → Option Subscription → Type 0
Agree (some w) (some x) = (x.plan ≡ w.plan) × (x.payment ≡ w.payment)
Agree w x = Unit

-- The plan and the payment of a workspace are those of its subscription, if it has one.
abbrev pub IsInStep : Store → Type 0
IsInStep s = (id : String) → Agree (find_workspace s id) (find_subscription s id)

Agree-same :
    (w v : Workspace) (o : Option Subscription)
    → v.plan ≡ w.plan
    → v.payment ≡ w.payment
    → Agree (some w) o
    → Agree (some v) o
Agree-same w v none plan payment h = tt
Agree-same w v (some x) plan payment h = (h.0 ∙ sym plan, h.1 ∙ sym payment)

-- A workspace is saved under its own plan and payment.
pub save_workspace-Agree :
    (s : Store) (w v : Workspace) (events : List WorkspaceEvent) (id other : String)
    → find_workspace s id ≡ some w
    → v.id ≡ w.id
    → v.plan ≡ w.plan
    → v.payment ≡ w.payment
    → Agree (find_workspace s other) (find_subscription s other)
    → Agree (find_workspace (save_workspace v events s) other) (find_subscription s other)
save_workspace-Agree s w v events id other found same plan payment h =
    let moved = find-upsert (λ (x : Workspace). x.id) v s.workspaces other in
    let own = find-key (λ (x : Workspace). x.id) s.workspaces id w found in
    elim (Bool-cases (v.id == other)) [
      | inl here ↦
          let there : id ≡ other =
            sym own ∙ sym same ∙ (text_equality.same_iff v.id other).0 here in
          let before : Agree (some w) (find_subscription s other) =
            subst (λ o. Agree o (find_subscription s other))
              (ap (find_workspace s) (sym there) ∙ found) h in
          subst⁻¹ (λ o. Agree o (find_subscription s other))
            (moved ∙ ap (λ b. if b then some v else find_workspace s other) here)
            (Agree-same w v (find_subscription s other) plan payment before)
      | inr elsewhere ↦
          subst⁻¹ (λ o. Agree o (find_subscription s other))
            (moved ∙ ap (λ b. if b then some v else find_workspace s other) elsewhere) h
    ]

-- Both are saved, at one id.
pub save_both-Agree :
    (s : Store) (v : Workspace) (x : Subscription) (ws : List Workspace) (xs : List Subscription)
    (other : String)
    → ws ≡ upsert (λ (w : Workspace). w.id) v s.workspaces
    → xs ≡ upsert (λ (y : Subscription). y.workspace) x s.subscriptions
    → x.workspace ≡ v.id
    → x.plan ≡ v.plan
    → x.payment ≡ v.payment
    → Agree (find_workspace s other) (find_subscription s other)
    → Agree
        (find (has_key (λ (w : Workspace). w.id) other) ws)
        (find (has_key (λ (y : Subscription). y.workspace) other) xs)
save_both-Agree s v x ws xs other we xe same plan payment h =
    rw
      (
        we,
        xe,
        find-upsert (λ (w : Workspace). w.id) v s.workspaces other,
        find-upsert (λ (y : Subscription). y.workspace) x s.subscriptions other,
        same,
      )
      (elim (Bool-cases (v.id == other)) [
        | inl here ↦ rw here (plan, payment)
        | inr elsewhere ↦ rw elsewhere h
      ])

-- ===== src/Dashboarding/Dashboard/Life.antt =====
-- A dashboard under any sequence of the operations on its tiles, its name, its mark and its link.
use counted.Base.{
  ℕ, Bool, false, List, [], ◌∷◌, String, some, ◌≡◌, refl, arith, is_empty, trim, trim_idem,
  text_equality, eq_iff, map, ◌∙◌, ap,
}
use counted.Base.Int.{ℤ}
use counted.Kernel.Result.{ok}
use counted.Kernel.Instant.{Instant}
use counted.Dashboarding.Dashboard.Layout.{set_layout}
use counted.Dashboarding.Dashboard.Layout.Laws.{set_layout-IsArranged}
use counted.Dashboarding.Tile.{Tile, TilePlacement, without_layout}
use counted.Dashboarding.Dashboard.{
  Dashboard, DashboardApplied, ShareGrant, create, rename, mark_default, clear_default, grant_share,
  unshare,
}
use counted.Dashboarding.Dashboard.Tiles.{
  gather, add_tile, update_tile, resize_tile, move_tile, reorder_tiles, remove_tile,
}
use counted.Dashboarding.Dashboard.Ids.{ids-gather}
use counted.Dashboarding.Dashboard.Shape.{IsArranged}
use counted.Dashboarding.Dashboard.Invariant.{
  add-IsArranged, update-IsArranged, resize-IsArranged, move-IsArranged, reorder-IsArranged,
  remove-IsArranged,
}

module _ {A : Type 0} where
  pub record IsValid (d : Dashboard A) : Type 0 where
    pub named : is_empty d.name ≡ false
    pub trimmed : trim d.name ≡ d.name
    pub arranged : IsArranged d.tiles
    pub owned : (grant : ShareGrant) → d.share ≡ some grant → grant.dashboard ≡ d.id

  pub data Step : Dashboard A → Dashboard A → Type 0 where
    adds :
        {d : Dashboard A} {a : DashboardApplied A} (tile : Tile A) (at : Instant)
        → add_tile d tile at ≡ ok a
        → Step d a.dashboard
    updates :
        {d : Dashboard A} {a : DashboardApplied A} (tile : Tile A) (at : Instant)
        → update_tile d tile at ≡ ok a
        → Step d a.dashboard
    resizes :
        {d : Dashboard A} {a : DashboardApplied A} (id : String) (width : ℕ) (at : Instant)
        → resize_tile d id width at ≡ ok a
        → Step d a.dashboard
    moves :
        {d : Dashboard A} {a : DashboardApplied A} (id : String) (to : ℤ) (at : Instant)
        → move_tile d id to at ≡ ok a
        → Step d a.dashboard
    reorders :
        {d : Dashboard A} {a : DashboardApplied A} (order : List String) (at : Instant)
        → reorder_tiles d order at ≡ ok a
        → Step d a.dashboard
    removes :
        {d : Dashboard A} {a : DashboardApplied A} (id : String) (at : Instant)
        → remove_tile d id at ≡ ok a
        → Step d a.dashboard
    lays_out :
        {d : Dashboard A} {a : DashboardApplied A} (placements : List TilePlacement) (at : Instant)
        → set_layout d placements at ≡ ok a
        → Step d a.dashboard
    renames :
        {d : Dashboard A} {a : DashboardApplied A} (name : String) (at : Instant)
        → rename d name at ≡ ok a
        → Step d a.dashboard
    marks :
        {d : Dashboard A} {a : DashboardApplied A} (at : Instant)
        → mark_default d at ≡ ok a
        → Step d a.dashboard
    clears :
        {d : Dashboard A} {a : DashboardApplied A} (at : Instant)
        → clear_default d at ≡ ok a
        → Step d a.dashboard
    shares :
        {d : Dashboard A} {a : DashboardApplied A} (grant : ShareGrant) (at : Instant)
        → grant_share d grant at ≡ ok a
        → Step d a.dashboard
    unshares :
        {d : Dashboard A} {a : DashboardApplied A} (at : Instant)
        → unshare d at ≡ ok a
        → Step d a.dashboard

  pub data Reach (d : Dashboard A) : Dashboard A → Type 0 where
    here : Reach d d
    next : {e f : Dashboard A} → Reach d e → Step e f → Reach d f

  -- An operation that leaves all but the tiles keeps the rest of what is valid.
  tiles-IsValid :
      (d e : Dashboard A)
      → IsValid d
      → e ≡ record d { tiles = e.tiles }
      → IsArranged e.tiles
      → IsValid e
  tiles-IsValid d e v h k = record {
    named = ground (arith, h, v.named);
    trimmed = ground (arith, h, v.trimmed);
    arranged = k;
    owned = λ grant g. ground (arith, h, g, v.owned grant);
  }

  IsArranged-same : (xs ys : List (Tile A)) → ys ≡ xs → IsArranged xs → IsArranged ys
  IsArranged-same xs ys h v = rw h v

  Step-IsValid : {d e : Dashboard A} → Step d e → IsValid d → IsValid e
  unfolding add_tile update_tile resize_tile move_tile reorder_tiles remove_tile set_layout rename
      mark_default clear_default grant_share unshare
  Step-IsValid {d} (adds {a = a} tile at h) v =
      tiles-IsValid d a.dashboard v (ground (arith, h)) (add-IsArranged d tile at a h v.arranged)
  Step-IsValid {d} (updates {a = a} tile at h) v =
      tiles-IsValid d a.dashboard v (ground (arith, h)) (update-IsArranged d tile at a h v.arranged)
  Step-IsValid {d} (resizes {a = a} id width at h) v =
      tiles-IsValid d a.dashboard v (ground (arith, h))
        (resize-IsArranged d id width at a h v.arranged)
  Step-IsValid {d} (moves {a = a} id to at h) v =
      tiles-IsValid d a.dashboard v (ground (arith, h)) (move-IsArranged d id to at a h v.arranged)
  Step-IsValid {d} (reorders {a = a} order at h) v =
      tiles-IsValid d a.dashboard v (ground (arith, h))
        (reorder-IsArranged d order at a h v.arranged)
  Step-IsValid {d} (removes {a = a} id at h) v =
      tiles-IsValid d a.dashboard v (ground (arith, h)) (remove-IsArranged d id at a h v.arranged)
  Step-IsValid {d} (lays_out {a = a} placements at h) v =
      tiles-IsValid d a.dashboard v (ground (arith, h))
        (set_layout-IsArranged d placements at a h v.arranged)
  Step-IsValid {d} (renames {a = a} name at h) v = record {
    named = ground (arith, h, v.named, trim_idem name);
    trimmed = ground (arith, h, v.trimmed, trim_idem name);
    arranged = IsArranged-same d.tiles _ (ground (arith, h)) v.arranged;
    owned = λ grant' g. ground (arith, h, g, v.owned grant');
  }
  Step-IsValid {d} (marks {a = a} at h) v = record {
    named = ground (arith, h, v.named);
    trimmed = ground (arith, h, v.trimmed);
    arranged = IsArranged-same d.tiles _ (ground (arith, h)) v.arranged;
    owned = λ grant' g. ground (arith, h, g, v.owned grant');
  }
  Step-IsValid {d} (clears {a = a} at h) v = record {
    named = ground (arith, h, v.named);
    trimmed = ground (arith, h, v.trimmed);
    arranged = IsArranged-same d.tiles _ (ground (arith, h)) v.arranged;
    owned = λ grant' g. ground (arith, h, g, v.owned grant');
  }
  Step-IsValid {d} (shares {a = a} grant at h) v = record {
    named = ground (arith, h, v.named);
    trimmed = ground (arith, h, v.trimmed);
    arranged = IsArranged-same d.tiles _ (ground (arith, h)) v.arranged;
    owned = λ grant' g. ground (arith, h, g, v.owned grant', eq_iff grant.dashboard d.id);
  }
  Step-IsValid {d} (unshares {a = a} at h) v = record {
    named = ground (arith, h, v.named);
    trimmed = ground (arith, h, v.trimmed);
    arranged = IsArranged-same d.tiles _ (ground (arith, h)) v.arranged;
    owned = λ grant' g. ground (arith, h, g, v.owned grant');
  }

  create-IsValid :
      (id workspace name : String) (at : Instant) (preferred : Bool) (a : DashboardApplied A)
      → create id workspace name at preferred ≡ ok a
      → IsValid a.dashboard
  unfolding create
  create-IsValid id workspace name at preferred a h = record {
    named = ground (arith, h);
    trimmed = ground (arith, h, trim_idem name);
    arranged =
        IsArranged-same [] _ (ground (arith, h))
          (record { few = omega arith; distinct = λ k. omega arith; all_shaped = refl });
    owned = λ grant g. ground (arith, h, g);
  }

  -- Whatever happens to a dashboard after it was created, it has at most fifty tiles, no two with
  -- one id, each with a title and a width of one to twelve; its name is trimmed and not empty, and
  -- a share link that it holds was made for it.
  pub dashboard_Reach-IsValid :
      (id workspace name : String) (at : Instant) (preferred : Bool) (a : DashboardApplied A)
      {e : Dashboard A}
      → create id workspace name at preferred ≡ ok a
      → Reach a.dashboard e
      → IsValid e
  dashboard_Reach-IsValid id workspace name at preferred a h here =
      create-IsValid id workspace name at preferred a h
  dashboard_Reach-IsValid id workspace name at preferred a h (next r s) =
      Step-IsValid s (dashboard_Reach-IsValid id workspace name at preferred a h r)

  ids_without_layout :
      (xs : List (Tile A))
      → map (λ (t : Tile A). t.id) (map without_layout xs) ≡ map (λ (t : Tile A). t.id) xs
  unfolding without_layout
  ids_without_layout [] = refl
  ids_without_layout (x ∷ xs) = ap (◌∷◌ x.id) (ids_without_layout xs)

  -- A rearrangement that is accepted leaves the tiles in exactly the order that was asked for.
  pub reorder_tiles-ids :
      (d : Dashboard A) (order : List String) (at : Instant) (a : DashboardApplied A)
      → reorder_tiles d order at ≡ ok a
      → map (λ (t : Tile A). t.id) a.dashboard.tiles ≡ order
  unfolding reorder_tiles
  reorder_tiles-ids d order at a h =
      let is : a.dashboard.tiles ≡ map without_layout (gather d.tiles order) = ground (arith, h) in
      rw is
        (ids_without_layout (gather d.tiles order) ∙ ids-gather d.tiles order (ground (arith, h)))

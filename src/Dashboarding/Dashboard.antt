-- ===== src/Dashboarding/Dashboard.antt =====
-- packages/dashboarding/domain/src/dashboard.ts, with share-grant.ts: a workspace's arrangement of
-- tiles, with its name, its default mark and its share link. The tiles are in Dashboard/Tiles.
pub mod Tiles
pub mod Layout
pub mod Rows
pub mod Share
pub mod Ids
pub mod Shape
pub mod Invariant
pub mod Life
use counted.Base.{
  ℕ, Bool, true, false, not, List, [], ◌∷◌, String, Option, none, some, ◌==◌, text_equality,
  is_empty, trim, if◌then◌else◌,
}
use counted.Base.Int.{ℤ}
use counted.Kernel.Result.{Result, ok, err, is_ok}
use counted.Kernel.Instant.{Instant, is_after}
use counted.Dashboarding.Tile.{Tile}

abbrev pub max_tiles : ℕ
max_tiles = 50

pub record ShareGrant : Type 0 where
  pub dashboard : String
  pub digest : String
  pub expires_at : Instant

-- `isDefault` is `preferred`.
pub record Dashboard (A : Type 0) : Type 0 where
  pub id : String
  pub workspace : String
  pub name : String
  pub tiles : List (Tile A)
  pub preferred : Bool
  pub share : Option ShareGrant

pub data DashboardError : Type 0 where
  name_required name_unchanged tile_title_required order_unchanged default_unchanged :
      DashboardError
  share_grant_expired share_grant_mismatch not_shared : DashboardError
  invalid_layout tile_exists no_such_tile width_unchanged position_unchanged :
      String → DashboardError
  too_many_tiles invalid_width : ℕ → DashboardError
  index_out_of_range : ℤ → ℕ → DashboardError
  not_a_permutation : ℕ → ℕ → DashboardError

pub data DashboardEvent : Type 0 where
  dashboard_created : String → String → String → Instant → DashboardEvent
  dashboard_renamed : String → String → Instant → DashboardEvent
  dashboard_layout_changed dashboard_default_set dashboard_default_cleared dashboard_unshared :
      String → Instant → DashboardEvent
  dashboard_shared : String → Instant → Instant → DashboardEvent
  tile_added : String → String → String → Instant → DashboardEvent
  tile_updated tile_removed : String → String → Instant → DashboardEvent
  tile_resized : String → String → ℕ → Instant → DashboardEvent
  tile_moved : String → String → ℤ → Instant → DashboardEvent
  tiles_reordered : String → List String → Instant → DashboardEvent

pub record DashboardApplied (A : Type 0) : Type 0 where
  pub dashboard : Dashboard A
  pub events : List DashboardEvent

abbrev pub Outcome : Type 0 → Type 0
Outcome A = Result (DashboardApplied A) DashboardError

abbrev authorize_with : String → ShareGrant → String → Instant → Result ShareGrant DashboardError
authorize_with id grant digest at =
    if not (grant.dashboard == id)
    then err share_grant_mismatch
    else if not (grant.digest == digest)
    then err not_shared
    else if not (is_after grant.expires_at at)
    then err share_grant_expired
    else ok grant

module _ {A : Type 0} where
  unfoldable pub create : String → String → String → Instant → Bool → Outcome A
  create id workspace name at preferred =
      if is_empty (trim name)
      then err name_required
      else ok (record {
        dashboard = record {
          id = id;
          workspace = workspace;
          name = trim name;
          tiles = [];
          preferred = preferred;
          share = none;
        };
        events = dashboard_created id workspace (trim name) at ∷ [];
      })

  unfoldable pub rename : Dashboard A → String → Instant → Outcome A
  rename d name at =
      if is_empty (trim name)
      then err name_required
      else if trim name == d.name
      then err name_unchanged
      else ok (record {
        dashboard = record d { name = trim name };
        events = dashboard_renamed d.id (trim name) at ∷ [];
      })

  unfoldable pub mark_default : Dashboard A → Instant → Outcome A
  mark_default d at =
      if d.preferred
      then err default_unchanged
      else ok (record {
        dashboard = record d { preferred = true };
        events = dashboard_default_set d.id at ∷ [];
      })

  unfoldable pub clear_default : Dashboard A → Instant → Outcome A
  clear_default d at =
      if not d.preferred
      then err default_unchanged
      else ok (record {
        dashboard = record d { preferred = false };
        events = dashboard_default_cleared d.id at ∷ [];
      })

  unfoldable pub grant_share : Dashboard A → ShareGrant → Instant → Outcome A
  grant_share d grant at =
      if not (grant.dashboard == d.id)
      then err share_grant_mismatch
      else if not (is_after grant.expires_at at)
      then err share_grant_expired
      else ok (record {
        dashboard = record d { share = some grant };
        events = dashboard_shared d.id grant.expires_at at ∷ [];
      })

  unfoldable pub unshare : Dashboard A → Instant → Outcome A
  unshare d at = elim d.share [
    | none ↦ err not_shared
    | some grant ↦
        ok (record {
          dashboard = record d { share = none };
          events = dashboard_unshared d.id at ∷ [];
        })
  ]

  unfoldable pub authorize_share_read :
      Dashboard A → String → Instant → Result ShareGrant DashboardError
  authorize_share_read d digest at = elim d.share [
    | none ↦ err not_shared
    | some grant ↦ authorize_with d.id grant digest at
  ]

  unfoldable pub allows_share_read : Dashboard A → String → Instant → Bool
  unfolding authorize_share_read
  allows_share_read d digest at = is_ok (authorize_share_read d digest at)

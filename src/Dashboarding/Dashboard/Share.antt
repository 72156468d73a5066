-- ===== src/Dashboarding/Dashboard/Share.antt =====
-- Who reads a shared dashboard.
use counted.Base.{true, String, some, ◌≡◌, ◌↔◌, arith, Option-cases, inl, inr, eq_iff}
use counted.Base.Int.{◌<ℤ◌}
use counted.Kernel.Instant.{Instant}
use counted.Kernel.Result.{ok}
use counted.Dashboarding.Dashboard.{
  Dashboard, DashboardApplied, ShareGrant, allows_share_read, grant_share,
}

module _ {A : Type 0} where
  allows_grant :
      (d : Dashboard A) (digest : String) (at : Instant) (grant : ShareGrant)
      → d.share ≡ some grant
      → (allows_share_read d digest at ≡ true)
        ↔ ((grant.dashboard ≡ d.id) × (grant.digest ≡ digest) × (at <ℤ grant.expires_at))
  unfolding allows_share_read
  allows_grant d digest at grant h =
      ground (arith, eq_iff grant.dashboard d.id, eq_iff grant.digest digest)

  -- A digest opens a dashboard exactly where the dashboard has a grant for itself with that digest
  -- which has not run out.
  pub allows_share_read_iff :
      (d : Dashboard A) (digest : String) (at : Instant)
      → (allows_share_read d digest at ≡ true) ↔ (
          (grant : ShareGrant) × (d.share ≡ some grant)
          × (grant.dashboard ≡ d.id)
          × (grant.digest ≡ digest)
          × (at <ℤ grant.expires_at))
  unfolding allows_share_read
  allows_share_read_iff d digest at = (
    λ h. elim (Option-cases d.share) [
      | inl e ↦ ground arith
      | inr (grant, e) ↦
          let (owns, same, fresh) = (allows_grant d digest at grant e).0 h in
          (grant, e, owns, same, fresh)
    ],
    λ (grant, e, owns, same, fresh). (allows_grant d digest at grant e).1 (owns, same, fresh),
  )

  -- A new share link revokes the one before it: once a grant is made, no other digest opens the
  -- dashboard, at any instant.
  pub grant_share-revokes :
      (d : Dashboard A) (grant : ShareGrant) (at later : Instant) (a : DashboardApplied A)
      (digest : String)
      → grant_share d grant at ≡ ok a
      → allows_share_read a.dashboard digest later ≡ true
      → digest ≡ grant.digest
  unfolding grant_share allows_share_read
  grant_share-revokes d grant at later a digest h k = ground (arith, eq_iff grant.digest digest)

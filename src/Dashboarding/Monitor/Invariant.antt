-- ===== src/Dashboarding/Monitor/Invariant.antt =====
-- What the operations of a monitor keep.
use counted.Base.{Bool, true, false, String, none, ◌≡◌, ◌≢◌, arith, is_empty, trim, trim_idem}
use counted.Base.Int.{pos, ◌≤ℤ◌}
use counted.Kernel.Result.{ok}
use counted.Kernel.Instant.{Instant}
use counted.Dashboarding.Threshold.{Threshold}
use counted.Dashboarding.Monitor.{
  Monitor, MonitorApplied, MonitorSettings, breaching, create, measurement_unavailable, evaluate,
  rename, retarget, reconfigure, enable, disable,
}

module _ {A V : Type 0} where
  pub record IsSound (m : Monitor A V) : Type 0 where
    pub named : is_empty m.name ≡ false
    pub trimmed : trim m.name ≡ m.name
    pub cools : pos 0 ≤ℤ m.cooldown
    pub watching : m.state ≡ breaching → m.enabled ≡ true
    pub announced : m.state ≡ breaching → m.last_notified_at ≢ none

module _ {A V : Type 0} (lt : V → V → Bool) where
  pub data Step : Monitor A V → Monitor A V → Type 0 where
    evaluates :
        (m : Monitor A V) (observed : V) (now : Instant)
        → Step m (evaluate lt m observed now).monitor
    fails :
        (m : Monitor A V) (detail : String) (at : Instant)
        → Step m (measurement_unavailable m detail at)
    renames :
        {m : Monitor A V} {a : MonitorApplied A V} (name : String) (at : Instant)
        → rename m name at ≡ ok a
        → Step m a.monitor
    retargets :
        {m : Monitor A V} {a : MonitorApplied A V} (analysis : A) (t : Threshold V) (at : Instant)
        → retarget m analysis t at ≡ ok a
        → Step m a.monitor
    reconfigures :
        {m : Monitor A V} {a : MonitorApplied A V} (s : MonitorSettings) (at : Instant)
        → reconfigure m s at ≡ ok a
        → Step m a.monitor
    enables :
        {m : Monitor A V} {a : MonitorApplied A V} (at : Instant)
        → enable m at ≡ ok a
        → Step m a.monitor
    disables :
        {m : Monitor A V} {a : MonitorApplied A V} (at : Instant)
        → disable m at ≡ ok a
        → Step m a.monitor

  pub data Reach (m : Monitor A V) : Monitor A V → Type 0 where
    here : Reach m m
    next : {n o : Monitor A V} → Reach m n → Step n o → Reach m o

  pub evaluate-IsSound :
      (m : Monitor A V) (observed : V) (now : Instant)
      → IsSound m
      → IsSound (evaluate lt m observed now).monitor
  unfolding evaluate
  evaluate-IsSound m observed now v = ground arith

  pub Step-IsSound : {m n : Monitor A V} → Step m n → IsSound m → IsSound n
  unfolding measurement_unavailable rename retarget reconfigure enable disable
  Step-IsSound (evaluates m observed now) v = evaluate-IsSound m observed now v
  Step-IsSound (fails m detail at) v = ground arith
  Step-IsSound (renames name at h) v = ground (arith, trim_idem name)
  Step-IsSound (retargets analysis t at h) v = ground arith
  Step-IsSound (reconfigures s at h) v = ground arith
  Step-IsSound (enables at h) v = ground arith
  Step-IsSound (disables at h) v = ground arith

  create-IsSound :
      (id workspace project name : String) (analysis : A) (t : Threshold V) (at : Instant)
      (s : MonitorSettings) (a : MonitorApplied A V)
      → create id workspace project name analysis t at s ≡ ok a
      → IsSound a.monitor
  unfolding create
  create-IsSound id workspace project name analysis t at s a h = ground (arith, trim_idem name)

  -- Whatever happens to a monitor after it was created, its name is trimmed and not empty, its
  -- cooldown is not negative, and a breach is recorded only of an enabled monitor that announced
  -- it.
  pub Reach-IsSound :
      (id workspace project name : String) (analysis : A) (t : Threshold V) (at : Instant)
      (s : MonitorSettings) (a : MonitorApplied A V) {m : Monitor A V}
      → create id workspace project name analysis t at s ≡ ok a
      → Reach a.monitor m
      → IsSound m
  Reach-IsSound id workspace project name analysis t at s a h here =
      create-IsSound id workspace project name analysis t at s a h
  Reach-IsSound id workspace project name analysis t at s a h (next r st) =
      Step-IsSound st (Reach-IsSound id workspace project name analysis t at s a h r)

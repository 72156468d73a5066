-- ===== src/Projects/Project/Archived.antt =====
-- What can happen to a project while it is archived.
use counted.Base.{Bool, true, false, ◌≡◌, refl, ◌∙◌, ap, arith}
use counted.Kernel.Instant.{Instant}
use counted.Projects.Project.{Project, admits_events, rename, archive, set_retention, claim}
use counted.Projects.Project.Laws.{Step, renames, archives, restores, sets_retention, claims}

abbrev pub is_restore : {p q : Project} → Step p q → Bool
is_restore (restores at h) = true
is_restore (renames name at h) = false
is_restore (archives at h) = false
is_restore (sets_retention policy at h) = false
is_restore (claims presented into at h) = false

-- Commands that succeed, one after another, none of which restores the project.
pub data Shelved (p : Project) : Project → Type 0 where
  here : Shelved p p
  next : {q r : Project} → Shelved p q → (st : Step q r) → is_restore st ≡ false → Shelved p r

Step-archived :
    {p q : Project} (st : Step p q)
    → is_restore st ≡ false
    → p.archived ≡ true
    → q ≡ record p { ownership = q.ownership }
unfolding rename archive set_retention claim
Step-archived (renames name at h) k e = ground arith
Step-archived (archives at h) k e = ground arith
Step-archived (restores at h) k e = ground arith
Step-archived (sets_retention policy at h) k e = ground arith
Step-archived (claims presented into at h) k e = ground arith

Shelved-archived :
    {p q : Project} → Shelved p q → p.archived ≡ true → q ≡ record p { ownership = q.ownership }
Shelved-archived here e = refl
Shelved-archived {p = p} (next {q = q} {r = r} s st k) e =
    let before = Shelved-archived s e in
    let shut : q.archived ≡ true = ap (λ (x : Project). x.archived) before ∙ e in
    Step-archived st k shut ∙ ap (λ (x : Project). record x { ownership = r.ownership }) before

-- Whatever is done to an archived project, as long as it is not restored, nothing of it changes but
-- whom it belongs to, which a claim may change: it stays archived and takes no event.
pub archived_run :
    (p q : Project) (at : Instant)
    → p.archived ≡ true
    → Shelved p q
    → (q ≡ record p { ownership = q.ownership }) × (admits_events q at ≡ false)
unfolding admits_events
archived_run p q at e s =
    let kept = Shelved-archived s e in
    let shut : q.archived ≡ true = ap (λ (x : Project). x.archived) kept ∙ e in
    (kept, ground (arith, shut))

-- ===== src/Ingestion/CommitTests.antt =====
-- One request opens a group of its project, which commits at once: it is the only commit allowed.
use counted.Base.{
  suc, ◌+◌, ◌*◌, ◌≤◌, ◌<◌, ◌⊎◌, true, [], ◌∷◌, ◌++◌, none, ◌≡◌, refl, ap, arith, length, sum,
}
use counted.Base.Int.{pos}
use counted.Ingestion.Policy.{GroupCommitPolicy}
use counted.Ingestion.AdmissionTests.{batch, event, outcome}
use counted.Ingestion.GroupCommit.{State, Group, Waiter, writing, initial}
use counted.Ingestion.GroupCommit.Submit.{resume, allowed}
use counted.Ingestion.GroupCommit.Settle.{
  WriteReceipt, wrote, recorded, commit, is_consistent, timeout, failed, finish, release,
}
use counted.Ingestion.GroupCommit.Steps.{Run, resumes, finishes, releases, here, next}
use counted.Ingestion.GroupCommit.Bounds.{IsValid, Run-IsValid}
use counted.Ingestion.GroupCommit.Memory.{writing_size, Run-memory}
use counted.Ingestion.GroupCommit.Account.{held, answered, times, Run-account, resume-waits}
use counted.Ingestion.GroupCommit.Receipt.{accepted_in, repeated_in, commit-receipt}
use counted.Ingestion.GroupCommit.Drain.{load, drain}
use counted.Ingestion.GroupCommit.Drain.Work.{moved}
use counted.Ingestion.GroupCommit.Drain.Answers.{drain-answers}

abbrev strict : GroupCommitPolicy
strict = record {
  linger = pos 20;
  max_events = 1;
  max_waiters = 64;
  max_buffered = 10;
  max_in_flight = 1;
  retry_after = pos 1000;
}

abbrev group : Group
group = record {
  project = "p1";
  workspace = "w1";
  events = event ∷ [];
  keys = record { idempotency_key = "k1"; occurred_at = pos 1000 } ∷ [];
  waiters =
      record {
        contributed = 1;
        offset = 0;
        duplicates = 1;
        rejected = outcome.rejected;
        ticket = 7;
      }
      ∷ [];
  opened_at = pos 1005;
}

abbrev joined : State
joined = resume strict initial batch outcome (allowed none) 7 (pos 1005)

joined_runs : joined ≡ record initial { commits = writing group ∷ [] }
unfolding resume
joined_runs = refl

one_step : Run strict initial (7 ∷ []) joined
one_step = next here (resumes initial batch outcome (allowed none) 7 (pos 1005))

abbrev receipt : WriteReceipt
receipt = record { written = 1; written_indices = pos 0 ∷ pos 0 ∷ []; deduplicated = 0 }

receipt_runs : is_consistent 1 receipt ≡ true
unfolding is_consistent
receipt_runs = refl

Run-IsValid_example : IsValid strict joined
Run-IsValid_example = Run-IsValid strict one_step

Run-memory_example : joined.buffered + sum writing_size joined.commits ≤ 10 + 1 * 10
Run-memory_example = Run-memory strict one_step

Run-account_example : held 7 joined + answered 7 joined ≡ times 7 (7 ∷ [])
Run-account_example = Run-account 7 strict one_step

commits_are : joined.commits ≡ [] ++ writing group ∷ []
commits_are = ap (λ s. s.commits) joined_runs

room_left : joined.buffered + length outcome.admitted ≤ strict.max_buffered
room_left = rw joined_runs (omega arith)

resume-waits_example :
    (held 8 (resume strict joined batch outcome (allowed none) 8 (pos 1006)) ≡ suc (held 8 joined))
    × ((resume strict joined batch outcome (allowed none) 8 (pos 1006)).settled ≡ joined.settled)
resume-waits_example = resume-waits strict batch outcome none 8 (pos 1006) one_step room_left

commit-receipt_example :
    (sum accepted_in (commit group (wrote receipt) recorded).acks ≡ 1)
    × (sum repeated_in (commit group (wrote receipt) recorded).acks
        ≡ sum (λ (w : Waiter). w.duplicates) group.waiters + 0)
commit-receipt_example =
    commit-receipt strict [] [] group receipt recorded one_step commits_are receipt_runs

abbrev draining : State
draining = drain strict (pos 1010) joined

draining_commits : draining.commits ≡ [] ++ writing group ∷ []
unfolding drain resume
draining_commits = refl

abbrev answers_late : State
answers_late = finish [] group [] (failed timeout) recorded draining

abbrev released : State
released = release strict [] [] (pos 1020) answers_late

abbrev shutdown : Run strict draining [] released
unfolding finish
shutdown =
    next (next here (finishes draining [] [] group (failed timeout) recorded draining_commits))
      (releases answers_late [] [] (pos 1020) refl)

drain-answers_example :
    (((load released ≡ 0) × (answered 7 released ≡ times 7 (7 ∷ [])))
      ⊎ (0 < length released.commits))
    × (moved strict shutdown ≤ 2 * (load joined + 0))
drain-answers_example =
    drain-answers strict (omega arith) joined released 7 (pos 1010) one_step shutdown

-- It is the first of the two, and both steps of the commit have been taken.
released_runs : (load released ≡ 0) × (moved strict shutdown ≡ 2)
unfolding drain finish release resume
released_runs = (refl, refl)

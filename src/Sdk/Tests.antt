-- ===== src/Sdk/Tests.antt =====
-- Runs of the queue at small capacities.
use counted.Base.{◌+◌, List, [], ◌∷◌, String, some, All, ◌≡◌, refl, arith}
use counted.Base.Int.{pos, ◌-ℤ◌}
use counted.Sdk.Visit.{Visit}
use counted.Sdk.Visit.Laws.{visits, AreClose, visits_kept}
use counted.Sdk.Queue.{EventQueue, new, size, push, take, requeue}
use counted.Sdk.Queue.Flow.{Op, pushes, takes, requeues, run, entered, left, run_conserves}
use counted.Sdk.Queue.Oldest.{push_all, push_all_lem}

-- Three events into a queue of two, one taken and returned behind a fourth.
abbrev traffic : List (Op String)
traffic = pushes "a" ∷ pushes "b" ∷ pushes "c" ∷ takes 1 ∷ pushes "d" ∷ requeues ("b" ∷ []) ∷ []

abbrev waiting : EventQueue String
waiting = record { events = "a" ∷ "b" ∷ "c" ∷ []; dropped = 4; capacity = 5 }

traffic_runs : run (new 2) traffic ≡ record { events = "c" ∷ "d" ∷ []; dropped = 2; capacity = 2 }
unfolding new push take requeue
traffic_runs = refl

run_conserves_example :
    size {E = String} (new 2) + (new {E = String} 2).dropped + entered traffic
    ≡ size (run (new 2) traffic) + (run (new 2) traffic).dropped + left (new 2) traffic
run_conserves_example = run_conserves (new 2) traffic

push_all_lem_example :
    push_all {E = String} (new 2) ("a" ∷ "b" ∷ "c" ∷ [])
    ≡ record { events = "b" ∷ "c" ∷ []; dropped = 1; capacity = 2 }
push_all_lem_example = push_all_lem {E = String} 2 ("a" ∷ "b" ∷ "c" ∷ [])

abbrev visit : Visit
visit = record { id = some "v1"; last_activity = pos 0; idle = pos 100 }

close : AreClose (λ at. "new") (pos 100) (pos 0) (pos 60 ∷ pos 160 ∷ pos 200 ∷ [])
unfolding ◌-ℤ◌
close = ground arith

visits_kept_example :
    All
      (λ (reported : String). reported ≡ "v1")
      (visits (λ at. "new") visit (pos 60 ∷ pos 160 ∷ pos 200 ∷ []))
visits_kept_example =
    visits_kept (λ at. "new") visit "v1" (pos 60 ∷ pos 160 ∷ pos 200 ∷ []) refl close

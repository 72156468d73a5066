-- ===== src/Sdk/Queue/Flow.antt =====
-- The bound, the order and the account of events over any use of the queue.
use counted.Base.{
  ℕ, zero, suc, ◌+◌, ◌-◌, ◌≤◌, List, [], ◌∷◌, ◌++◌, ◌≡◌, arith, length, take as first, drop,
  length-append, length-drop, take-append-drop,
}
use counted.Sdk.Queue.{EventQueue, new, size, trim, push, take, requeue}

pub data Op (E : Type 0) : Type 0 where
  pushes : E → Op E
  takes : ℕ → Op E
  requeues : List E → Op E

module _ {E : Type 0} where
  abbrev pub act : EventQueue E → Op E → EventQueue E
  act q (pushes event) = push q event
  act q (takes limit) = (take q limit).queue
  act q (requeues events) = requeue q events

  abbrev pub entering : Op E → ℕ
  entering (pushes event) = 1
  entering (takes limit) = 0
  entering (requeues events) = length events

  abbrev pub leaving : EventQueue E → Op E → ℕ
  leaving q (takes limit) = length (take q limit).batch
  leaving q op = 0

  abbrev pub run : EventQueue E → List (Op E) → EventQueue E
  run q [] = q
  run q (op ∷ ops) = run (act q op) ops

  abbrev pub entered : List (Op E) → ℕ
  entered [] = 0
  entered (op ∷ ops) = entering op + entered ops

  abbrev pub left : EventQueue E → List (Op E) → ℕ
  left q [] = 0
  left q (op ∷ ops) = leaving q op + left (act q op) ops

  length-first-drop : (n : ℕ) (xs : List E) → length (first n xs) + length (drop n xs) ≡ length xs
  length-first-drop zero xs = omega arith
  length-first-drop (suc n) [] = omega arith
  length-first-drop (suc n) (x ∷ xs) = omega (arith, length-first-drop n xs)

  trim_bounded : (q : EventQueue E) → size (trim q) ≤ q.capacity
  unfolding trim size
  trim_bounded q = ground (arith, length-drop (length q.events - q.capacity) q.events)

  trim_conserves : (q : EventQueue E) → size q + q.dropped ≡ size (trim q) + (trim q).dropped
  unfolding trim size
  trim_conserves q = ground (arith, length-drop (length q.events - q.capacity) q.events)

  act_bounded : (q : EventQueue E) (op : Op E) → size q ≤ q.capacity → size (act q op) ≤ q.capacity
  unfolding push take requeue size
  act_bounded q (pushes event) h = trim_bounded _
  act_bounded q (takes limit) h = omega (arith, length-drop limit q.events)
  act_bounded q (requeues events) h = trim_bounded _

  act-capacity : (q : EventQueue E) (op : Op E) → (act q op).capacity ≡ q.capacity
  unfolding push take requeue
  act-capacity q (pushes event) = ground arith
  act-capacity q (takes limit) = ground arith
  act-capacity q (requeues events) = ground arith

  act_conserves :
      (q : EventQueue E) (op : Op E)
      → size q + q.dropped + entering op ≡ size (act q op) + (act q op).dropped + leaving q op
  unfolding push take requeue size
  act_conserves q (pushes event) = omega (
    arith,
    trim_conserves (record q { events = q.events ++ event ∷ [] }),
    length-append q.events (event ∷ []),
  )
  act_conserves q (takes limit) = ground (arith, length-first-drop limit q.events)
  act_conserves q (requeues events) = omega (
    arith,
    trim_conserves (record q { events = events ++ q.events }),
    length-append events q.events,
  )

  run_within :
      (ops : List (Op E)) (q : EventQueue E) → size q ≤ q.capacity → size (run q ops) ≤ q.capacity
  run_within [] q h = h
  run_within (op ∷ ops) q h =
      let bounded = act_bounded q op h in
      let same = act-capacity q op in
      omega (arith, bounded, same, run_within ops (act q op) (omega (arith, bounded, same)))

  -- However a queue is used from its creation, it never holds more than its capacity.
  pub run_bounded : (capacity : ℕ) (ops : List (Op E)) → size (run (new capacity) ops) ≤ capacity
  unfolding new size
  run_bounded capacity ops = run_within ops (new capacity) (omega arith)

  -- Every event that was pushed or returned to a queue is still in it, was taken, or is counted as
  -- dropped.
  pub run_conserves :
      (q : EventQueue E) (ops : List (Op E))
      → size q + q.dropped + entered ops ≡ size (run q ops) + (run q ops).dropped + left q ops
  run_conserves q [] = omega arith
  run_conserves q (op ∷ ops) = omega (arith, act_conserves q op, run_conserves (act q op) ops)

  -- A batch that was taken from a queue within its capacity and is returned at once goes back where it
  -- stood: the queue is the one before, with nothing dropped.
  pub requeue-take :
      (q : EventQueue E) (limit : ℕ)
      → size q ≤ q.capacity
      → requeue (take q limit).queue (take q limit).batch ≡ q
  unfolding requeue take size trim
  requeue-take q limit h = ground (arith, take-append-drop limit q.events)

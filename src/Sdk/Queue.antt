-- ===== src/Sdk/Queue.antt =====
-- packages/sdk-js/src/queue.ts: the bounded buffer of events that are not sent yet.
pub mod Flow
pub mod Oldest
use counted.Base.{
  ℕ, ◌+◌, ◌-◌, Bool, List, [], ◌∷◌, ◌++◌, length, take as first, drop, leb, if◌then◌else◌,
}

-- `E` is an event: the queue does not look into it.
pub record EventQueue (E : Type 0) : Type 0 where
  pub events : List E
  pub dropped : ℕ
  pub capacity : ℕ

-- What `take` returns, with the queue that it leaves.
pub record Taken (E : Type 0) : Type 0 where
  pub batch : List E
  pub queue : EventQueue E

module _ {E : Type 0} where
  unfoldable pub new : ℕ → EventQueue E
  new capacity = record { events = []; dropped = 0; capacity = capacity }

  unfoldable pub size : EventQueue E → ℕ
  size q = length q.events

  -- The source's `excess <= 0` is a test of a difference that may be negative: `size <= capacity`.
  unfoldable pub trim : EventQueue E → EventQueue E
  unfolding size
  trim q = if leb (size q) q.capacity then q else record q {
    events = drop (size q - q.capacity) q.events;
    dropped = q.dropped + (size q - q.capacity);
  }

  unfoldable pub push : EventQueue E → E → EventQueue E
  unfolding trim
  push q event = trim (record q { events = q.events ++ event ∷ [] })

  unfoldable pub take : EventQueue E → ℕ → Taken E
  take q limit = record {
    batch = first limit q.events;
    queue = record q { events = drop limit q.events };
  }

  unfoldable pub requeue : EventQueue E → List E → EventQueue E
  unfolding trim
  requeue q events = trim (record q { events = events ++ q.events })

-- ===== src/Ingestion/GroupCommit/Receipt.antt =====
-- How the receipt of a commit is shared out between the requests of its group.
use counted.Base.{
  ℕ, zero, suc, ◌+◌, ◌≤◌, ◌<◌, true, false, List, [], ◌∷◌, ◌++◌, All, All-split, ◌≡◌, refl, arith,
  sum, includes, all,
}
use counted.Base.Int.{ℤ, pos, int_equality, int_beq_iff}
use counted.Ingestion.Policy.{GroupCommitPolicy}
use counted.Ingestion.GroupCommit.{
  Group, Waiter, Ack, committed, refused, CommitSummary, Commit, State, writing, initial,
}
use counted.Ingestion.GroupCommit.Settle.{
  WriteReceipt, Recorded, wrote, commit, accepted_from, distinct_count, is_consistent, in_range,
  commit_all, summary_of,
}
use counted.Ingestion.GroupCommit.Bounds.{AreTiled, IsShared, IsWriting, size, Run-IsValid}
use counted.Ingestion.GroupCommit.Steps.{Run}

accepted_from-none : (i n : ℕ) → accepted_from [] i n ≡ 0
unfolding accepted_from
accepted_from-none i zero = refl
accepted_from-none i (suc n) = ground (arith, accepted_from-none (suc i) n)

accepted_from-plus :
    (xs : List ℤ) (i m n : ℕ)
    → accepted_from xs i (m + n) ≡ accepted_from xs i m + accepted_from xs (i + m) n
unfolding accepted_from
accepted_from-plus xs i zero n = ground arith
accepted_from-plus xs i (suc m) n = grind (arith, accepted_from-plus xs (suc i) m n)

accepted_from-again :
    (x : ℤ) (xs : List ℤ) (i n : ℕ)
    → includes xs x ≡ true
    → accepted_from (x ∷ xs) i n ≡ accepted_from xs i n
unfolding accepted_from
accepted_from-again x xs i zero h = refl
accepted_from-again x xs i (suc n) h =
    ground (arith, h, int_beq_iff x (pos i), accepted_from-again x xs (suc i) n h)

accepted_from-passed :
    (k : ℕ) (xs : List ℤ) (i n : ℕ) → k < i → accepted_from (pos k ∷ xs) i n ≡ accepted_from xs i n
unfolding accepted_from
accepted_from-passed k xs i zero h = refl
accepted_from-passed k xs i (suc n) h = ground (arith, h, accepted_from-passed k xs (suc i) n)

accepted_from-new :
    (k : ℕ) (xs : List ℤ) (i n : ℕ)
    → includes xs (pos k) ≡ false
    → i ≤ k
    → k < i + n
    → accepted_from (pos k ∷ xs) i n ≡ suc (accepted_from xs i n)
unfolding accepted_from
accepted_from-new k xs i zero new low high = absurd (omega arith)
accepted_from-new k xs i (suc n) new low high =
    ground (arith, new, accepted_from-passed k xs (suc i) n, accepted_from-new k xs (suc i) n new)

-- Positions within the batch are counted once each.
accepted_from-distinct_count :
    (xs : List ℤ) (n : ℕ) → all (in_range n) xs ≡ true → accepted_from xs 0 n ≡ distinct_count xs
unfolding distinct_count
accepted_from-distinct_count [] n h = accepted_from-none 0 n
accepted_from-distinct_count (ℤ.negsuc k ∷ xs) n h = absurd (ground arith)
accepted_from-distinct_count (pos k ∷ xs) n h = ground (
  arith,
  accepted_from-again (pos k) xs 0 n,
  accepted_from-new k xs 0 n,
  accepted_from-distinct_count xs n,
)

abbrev pub accepted_of : List ℤ → Waiter → ℕ
accepted_of xs w = accepted_from xs w.offset w.contributed

accepted_from-tiled :
    (xs : List ℤ) (from : ℕ) (ws : List Waiter) (n : ℕ)
    → AreTiled from ws n
    → accepted_from xs 0 from + sum (accepted_of xs) ws ≡ accepted_from xs 0 n
accepted_from-tiled xs from [] n h = ground (arith, h)
accepted_from-tiled xs from (w ∷ ws) n h = ground (
  arith,
  h.0,
  accepted_from-plus xs 0 from w.contributed,
  accepted_from-tiled xs (from + w.contributed) ws n h.1,
)

abbrev pub accepted_in : ℕ × Ack → ℕ
accepted_in (ticket, committed accepted deduplicated rejected summary) = accepted
accepted_in (ticket, refused error rejected) = 0

commit_all-accepted :
    (xs : List ℤ) (summary : CommitSummary) (ws : List Waiter)
    → sum accepted_in (commit_all xs summary ws) ≡ sum (accepted_of xs) ws
commit_all-accepted xs summary [] = refl
commit_all-accepted xs summary (w ∷ ws) = omega (arith, commit_all-accepted xs summary ws)

abbrev pub repeated_in : ℕ × Ack → ℕ
repeated_in (ticket, committed accepted deduplicated rejected summary) = deduplicated
repeated_in (ticket, refused error rejected) = 0

accepted_from-le : (xs : List ℤ) (i n : ℕ) → accepted_from xs i n ≤ n
unfolding accepted_from
accepted_from-le xs i zero = omega arith
accepted_from-le xs i (suc n) = ground (arith, accepted_from-le xs (suc i) n)

commit_all-repeated :
    (xs : List ℤ) (summary : CommitSummary) (ws : List Waiter)
    → sum repeated_in (commit_all xs summary ws) + sum (accepted_of xs) ws
      ≡ sum (λ (w : Waiter). w.duplicates) ws + sum (λ (w : Waiter). w.contributed) ws
commit_all-repeated xs summary [] = refl
commit_all-repeated xs summary (w ∷ ws) =
    omega (arith, commit_all-repeated xs summary ws, accepted_from-le xs w.offset w.contributed)

AreTiled-sum :
    (from : ℕ) (ws : List Waiter) (n : ℕ)
    → AreTiled from ws n
    → from + sum (λ (w : Waiter). w.contributed) ws ≡ n
AreTiled-sum from [] n h = ground (arith, h)
AreTiled-sum from (w ∷ ws) n h = ground (arith, h.0, AreTiled-sum (from + w.contributed) ws n h.1)

commit-wrote :
    (g : Group) (r : WriteReceipt) (usage : Recorded)
    → is_consistent (size g) r ≡ true
    → (commit g (wrote r) usage).acks ≡ commit_all r.written_indices (summary_of g r) g.waiters
unfolding commit
commit-wrote g r usage h = rw h refl

commit_total :
    (g : Group) (r : WriteReceipt)
    → IsShared g
    → is_consistent (size g) r ≡ true
    → (sum accepted_in (commit_all r.written_indices (summary_of g r) g.waiters) ≡ r.written)
      × (sum repeated_in (commit_all r.written_indices (summary_of g r) g.waiters)
          ≡ sum (λ (w : Waiter). w.duplicates) g.waiters + r.deduplicated)
unfolding is_consistent
commit_total g r shared h = ground (
  arith,
  commit_all-accepted r.written_indices (summary_of g r) g.waiters,
  commit_all-repeated r.written_indices (summary_of g r) g.waiters,
  accepted_from-le r.written_indices 0 0,
  AreTiled-sum 0 g.waiters (size g) shared,
  accepted_from-tiled r.written_indices 0 g.waiters (size g) shared,
  accepted_from-distinct_count r.written_indices (size g),
)

-- In whatever run a group came to be written: when the sink's receipt is consistent, the events that
-- the waiting requests are told were accepted add up to those that the sink wrote, and the repeats
-- that they are told of to those of the sink and those found before.
pub commit-receipt :
    (policy : GroupCommitPolicy) {submitted : List ℕ} {s : State} (before after : List Commit)
    (g : Group) (r : WriteReceipt) (usage : Recorded)
    → Run policy initial submitted s
    → s.commits ≡ before ++ writing g ∷ after
    → is_consistent (size g) r ≡ true
    → (sum accepted_in (commit g (wrote r) usage).acks ≡ r.written)
      × (sum repeated_in (commit g (wrote r) usage).acks
          ≡ sum (λ (w : Waiter). w.duplicates) g.waiters + r.deduplicated)
commit-receipt policy before after g r usage run e h =
    let all : All (IsWriting policy) (before ++ writing g ∷ after) =
      rw (← e) (Run-IsValid policy run).within.writes in
    rw (commit-wrote g r usage h)
      (commit_total g r (All-split (IsWriting policy) before (writing g ∷ after) all).1.0.0 h)

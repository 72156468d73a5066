-- ===== src/Sdk/Queue/Oldest.antt =====
-- Which events a full queue gives up.
use counted.Base.{
  ℕ, zero, suc, ◌+◌, ◌-◌, ◌≤◌, List, [], ◌∷◌, ◌++◌, ◌≡◌, refl, sym, ap, ap₂, ◌∙◌, arith, length,
  drop, length-append, length-drop,
}
use mathlib.Core.List.{append-nil, append_assoc}
use counted.Sdk.Queue.{EventQueue, new, size, trim, push}

module _ {E : Type 0} where
  abbrev pub push_all : EventQueue E → List E → EventQueue E
  push_all q [] = q
  push_all q (event ∷ events) = push_all (push q event) events

  drop-append : (n : ℕ) (xs ys : List E) → n ≤ length xs → drop n (xs ++ ys) ≡ drop n xs ++ ys
  drop-append zero xs ys h = refl
  drop-append (suc n) [] ys h = ground (arith, h)
  drop-append (suc n) (x ∷ xs) ys h = drop-append n xs ys (omega arith)

  drop_same : {m n : ℕ} → m ≡ n → (xs : List E) → drop m xs ≡ drop n xs
  drop_same h xs = ap (λ k. drop k xs) h

  drop-nil : (n : ℕ) → drop {A = E} n [] ≡ []
  drop-nil zero = refl
  drop-nil (suc n) = refl

  drop-drop : (m n : ℕ) (xs : List E) → drop m (drop n xs) ≡ drop (n + m) xs
  drop-drop m zero xs = drop_same (omega arith) xs
  drop-drop m (suc n) [] = drop-nil m ∙ sym (drop-nil (suc n + m))
  drop-drop m (suc n) (x ∷ xs) =
      drop-drop m n xs ∙ drop_same {m = suc (n + m)} {n = suc n + m} (omega arith) (x ∷ xs)

  drop_none : (n : ℕ) (xs : List E) → n ≡ 0 → drop n xs ≡ xs
  drop_none zero xs h = refl
  drop_none (suc n) xs h = ground (arith, h)

  trim_lem :
      (q : EventQueue E)
      → trim q ≡ record q {
        events = drop (length q.events - q.capacity) q.events;
        dropped = q.dropped + (length q.events - q.capacity);
      }
  unfolding trim size
  trim_lem q = ground (arith, drop_none (length q.events - q.capacity) q.events)

  -- What a queue of a capacity holds of a history: its end, with what is missing counted.
  abbrev pub end_of : ℕ → List E → EventQueue E
  end_of capacity history = record {
    events = drop (length history - capacity) history;
    dropped = length history - capacity;
    capacity = capacity;
  }

  push-end_of :
      (capacity : ℕ) (history : List E) (event : E)
      → push (end_of capacity history) event ≡ end_of capacity (history ++ event ∷ [])
  unfolding push
  push-end_of capacity history event =
      let k = length history - capacity in
      let kept = drop k history ++ event ∷ [] in
      let whole = history ++ event ∷ [] in
      let sizes = length-append (drop k history) (event ∷ []) in
      let total = length-append history (event ∷ []) in
      let rest = length-drop k history in
      trim_lem (record { events = kept; dropped = k; capacity = capacity })
      ∙ ap₂ (λ es d. record { events = es; dropped = d; capacity = capacity })
          (ap (drop (length kept - capacity))
              (sym (drop-append k history (event ∷ []) (omega arith)))
            ∙ drop-drop (length kept - capacity) k whole
            ∙ ap (λ j. drop j whole) (omega (arith, sizes, total, rest)))
          (omega (arith, sizes, total, rest))

  push_all-end_of :
      (events : List E) (capacity : ℕ) (history : List E)
      → push_all (end_of capacity history) events ≡ end_of capacity (history ++ events)
  push_all-end_of [] capacity history = ap (end_of capacity) (sym (append-nil history))
  push_all-end_of (event ∷ events) capacity history =
      ap (λ q. push_all q events) (push-end_of capacity history event)
      ∙ push_all-end_of events capacity (history ++ event ∷ [])
      ∙ ap (end_of capacity) (append_assoc history (event ∷ []) events)

  -- What is tracked into a new queue beyond its capacity costs the oldest events, and only those: the
  -- queue holds the end of the history in its order, and counts the rest as dropped.
  pub push_all_lem :
      (capacity : ℕ) (events : List E) → push_all (new capacity) events ≡ end_of capacity events
  unfolding new
  push_all_lem capacity events =
      let empty : 0 ≡ 0 - capacity = omega arith in
      let start : new capacity ≡ end_of capacity [] =
        ap₂ (λ es d. record { events = es; dropped = d; capacity = capacity })
          (sym (drop_none (0 - capacity) [] (sym empty))) empty in
      ap (λ q. push_all q events) start ∙ push_all-end_of events capacity []

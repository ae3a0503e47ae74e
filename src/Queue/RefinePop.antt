-- ===== src/Queue/RefinePop.antt =====
-- bq_pop of modules/blocking_queue/blocking_queue.c against a bounded first-in first-out list, waits
-- included.
use edgevision_gateway.Common.{
  ℕ, zero, suc, ◌≡◌, refl, arith, Bool, true, false, not, ◌&&◌, Option, none, some, List, [], ◌∷◌,
  inr, ltb, ltb→lt, ◌==◌, ◌!=◌, if_both,
}
use edgevision_gateway.Common.Int.{ℤ, pos, negsuc}
use edgevision_gateway.Queue.{
  Item, BqResult, ok, closed, timeout, system, BoundedQueue, Wake, wake, Outcome, returned, aborted,
  waiting, after_wait, no_deadline, pop_now, pop_loop, bq_pop, etimedout,
}
use edgevision_gateway.Queue.Inv.{IsValid, WakesValid}
use edgevision_gateway.Queue.Contents.{contents, contents-popped}
use edgevision_gateway.Queue.Refine.{SeenIn, SeenIn-first, IsBounded}

-- What a call that returned did to the queue `p` that it found, and what it wrote to `out`.
abbrev pub Popped : ℤ → BqResult → Option Item → BoundedQueue → BoundedQueue → Type 0
Popped timeout_ms ok (some item) p after = contents p ≡ item ∷ contents after
Popped timeout_ms closed none p after = (p.is_closed ≡ true) × (p.size ≡ 0) × (after ≡ p)
Popped timeout_ms timeout none p after = IsBounded timeout_ms × (after ≡ p)
Popped timeout_ms system none p after = after ≡ p
Popped timeout_ms _ _ p after = ⊥

abbrev pub PopActs : ℤ → BoundedQueue → List Wake → Outcome → Type 0
PopActs timeout_ms q wakes (returned r out after) =
    (p : BoundedQueue) × SeenIn p q wakes × Popped timeout_ms r out p after
PopActs timeout_ms q wakes aborted = ⊥
PopActs timeout_ms q wakes (waiting p) = SeenIn p q wakes × (p.size ≡ 0) × (p.is_closed ≡ false)

PopActs-later :
    (timeout_ms : ℤ) (q left : BoundedQueue) (rc : ℕ) (wakes : List Wake) (o : Outcome)
    → PopActs timeout_ms left wakes o
    → PopActs timeout_ms q (wake rc left ∷ wakes) o
PopActs-later timeout_ms q left rc wakes (returned r out after) (p, seen, did) = (p, inr seen, did)
PopActs-later timeout_ms q left rc wakes aborted h = h
PopActs-later timeout_ms q left rc wakes (waiting p) h = (inr h.0, h.1, h.2)

empty_and_open :
    (q : BoundedQueue)
    → ((q.size == 0) && not q.is_closed) ≡ true
    → (q.size ≡ 0) × (q.is_closed ≡ false)
empty_and_open q h = ground arith

closed_and_empty :
    (q : BoundedQueue) → (q.is_closed && (q.size == 0)) ≡ true → (q.is_closed ≡ true) × (q.size ≡ 0)
closed_and_empty q h = ground arith

pop_now-PopActs :
    (timeout_ms : ℤ) (q : BoundedQueue) (wakes : List Wake)
    → IsValid q
    → ((q.size == 0) && not q.is_closed) ≡ false
    → PopActs timeout_ms q wakes (pop_now q)
unfolding pop_now
pop_now-PopActs timeout_ms q wakes v go =
    if_both (PopActs timeout_ms q wakes) (q.is_closed && (q.size == 0)) _ _
      (λ shut.
        let facts = closed_and_empty q shut in (q, SeenIn-first q wakes, (facts.0, facts.1, refl)))
      λ going.
        if_both (PopActs timeout_ms q wakes) (ltb 0 q.size) _ _
          (λ some_left. (q, SeenIn-first q wakes, contents-popped v (ltb→lt 0 q.size some_left)))
          (λ nothing. absurd (ground arith))

after_wait-PopActs :
    (timeout_ms : ℤ) (left : BoundedQueue) (rc : ℕ) (wakes : List Wake) (again : Outcome)
    → PopActs timeout_ms left wakes again
    → PopActs timeout_ms left wakes (after_wait timeout_ms rc left again)
unfolding after_wait
after_wait-PopActs (pos n) left rc wakes again h =
    if_both (PopActs (pos n) left wakes) (rc == etimedout) _ _
      (λ e. (left, SeenIn-first left wakes, (tt, refl)))
      (λ e.
        if_both (PopActs (pos n) left wakes) (rc != 0) _ _
          (λ d. (left, SeenIn-first left wakes, refl)) (λ d. h))
after_wait-PopActs (negsuc n) left rc wakes again h =
    if_both (PopActs (negsuc n) left wakes) (rc != 0) _ _
      (λ d. (left, SeenIn-first left wakes, refl)) (λ d. h)

pop_loop-PopActs :
    (timeout_ms : ℤ) (q : BoundedQueue) (wakes : List Wake)
    → IsValid q
    → WakesValid wakes
    → PopActs timeout_ms q wakes (pop_loop timeout_ms q wakes)
unfolding pop_loop
pop_loop-PopActs (pos zero) q wakes v w =
    if_both (PopActs (pos zero) q wakes) _ _ _ (λ none_left. (q, SeenIn-first q wakes, (tt, refl)))
      (λ go. pop_now-PopActs (pos zero) q wakes v go)
pop_loop-PopActs (pos (suc n)) q [] v w =
    if_both (PopActs (pos (suc n)) q []) _ _ _
      (λ none_left. let facts = empty_and_open q none_left in (refl, facts.0, facts.1))
      (λ go. pop_now-PopActs (pos (suc n)) q [] v go)
pop_loop-PopActs (pos (suc n)) q (wake rc left ∷ wakes) v w =
    if_both (PopActs (pos (suc n)) q (wake rc left ∷ wakes)) _ _ _
      (λ none_left. PopActs-later (pos (suc n)) q left rc wakes _ (
        after_wait-PopActs (pos (suc n)) left rc wakes _
          (pop_loop-PopActs (pos (suc n)) left wakes w.0 w.1)))
      (λ go. pop_now-PopActs (pos (suc n)) q (wake rc left ∷ wakes) v go)
pop_loop-PopActs (negsuc n) q [] v w =
    if_both (PopActs (negsuc n) q []) _ _ _
      (λ none_left. let facts = empty_and_open q none_left in (refl, facts.0, facts.1))
      (λ go. pop_now-PopActs (negsuc n) q [] v go)
pop_loop-PopActs (negsuc n) q (wake rc left ∷ wakes) v w =
    if_both (PopActs (negsuc n) q (wake rc left ∷ wakes)) _ _ _
      (λ none_left. PopActs-later (negsuc n) q left rc wakes _ (
        after_wait-PopActs (negsuc n) left rc wakes _
          (pop_loop-PopActs (negsuc n) left wakes w.0 w.1)))
      (λ go. pop_now-PopActs (negsuc n) q (wake rc left ∷ wakes) v go)

-- A pop that is given both pointers acts on the queue as it found it at its start or at one wake:
-- BQ_OK takes the oldest item and hands it out, BQ_CLOSED found the queue closed and empty,
-- BQ_TIMEOUT needs a timeout that is not negative, and each of these and BQ_SYSTEM leaves the queue
-- as found and writes nothing. A pop still waits only on a queue that is empty and open.
pub bq_pop-PopActs :
    (q : BoundedQueue) (timeout_ms : ℤ) (clock_ok : Bool) (wakes : List Wake)
    → IsValid q
    → WakesValid wakes
    → PopActs timeout_ms q wakes (bq_pop true q timeout_ms clock_ok wakes)
unfolding bq_pop
bq_pop-PopActs q timeout_ms clock_ok wakes v w =
    if_both (PopActs timeout_ms q wakes) (no_deadline timeout_ms clock_ok) _ _
      (λ e. (q, SeenIn-first q wakes, refl)) (λ e. pop_loop-PopActs timeout_ms q wakes v w)

-- ===== src/Queue/Refine.antt =====
-- bq_push of modules/blocking_queue/blocking_queue.c against a bounded first-in first-out
-- list, waits included: the call acts once, on the queue as it found it at its start or at a wake.
use edgevision_gateway.Common.{
  ℕ, zero, suc, ◌<◌, ◌≡◌, refl, arith, Bool, true, false, not, ◌&&◌, List, [], ◌∷◌, ◌++◌, ◌⊎◌, inl,
  inr, ltb, ltb→lt, ◌==◌, ◌!=◌, if_both,
}
use edgevision_gateway.Common.Int.{ℤ, pos, negsuc}
use edgevision_gateway.Queue.{
  Item, BqResult, ok, closed, timeout, invalid, nomem, system, BoundedQueue, Wake, wake, Outcome,
  returned, aborted, waiting, push_now, after_wait, push_loop, no_deadline, bq_push, etimedout,
}
use edgevision_gateway.Queue.Inv.{IsValid, WakesValid}
use edgevision_gateway.Queue.Contents.{contents, contents-pushed}

-- `p` is the queue at the start of the call or at one of its wakes.
abbrev pub SeenIn : BoundedQueue → BoundedQueue → List Wake → Type 0
SeenIn p q [] = p ≡ q
SeenIn p q (wake rc left ∷ wakes) = (p ≡ q) ⊎ SeenIn p left wakes

-- A timeout that is not negative: the call does not wait for ever.
abbrev pub IsBounded : ℤ → Type 0
IsBounded (pos n) = Unit
IsBounded (negsuc n) = ⊥

-- What a call that returned did to the queue `p` that it found.
abbrev pub Pushed : ℤ → Item → BqResult → BoundedQueue → BoundedQueue → Type 0
Pushed timeout_ms item ok p after =
    (p.is_closed ≡ false) × (p.size < p.capacity) × (contents after ≡ contents p ++ item ∷ [])
Pushed timeout_ms item closed p after = (p.is_closed ≡ true) × (after ≡ p)
Pushed timeout_ms item timeout p after = IsBounded timeout_ms × (after ≡ p)
Pushed timeout_ms item system p after = after ≡ p
Pushed timeout_ms item invalid p after = ⊥
Pushed timeout_ms item nomem p after = ⊥

abbrev pub PushActs : ℤ → Item → BoundedQueue → List Wake → Outcome → Type 0
PushActs timeout_ms item q wakes (returned r out after) =
    (p : BoundedQueue) × SeenIn p q wakes × Pushed timeout_ms item r p after
PushActs timeout_ms item q wakes aborted = ⊥
PushActs timeout_ms item q wakes (waiting p) =
    SeenIn p q wakes × (p.size ≡ p.capacity) × (p.is_closed ≡ false)

pub SeenIn-first : (q : BoundedQueue) (wakes : List Wake) → SeenIn q q wakes
SeenIn-first q [] = refl
SeenIn-first q (wake rc left ∷ wakes) = inl refl

-- What holds from a wake on holds from the start.
PushActs-later :
    (timeout_ms : ℤ) (item : Item) (q left : BoundedQueue) (rc : ℕ) (wakes : List Wake)
    (o : Outcome)
    → PushActs timeout_ms item left wakes o
    → PushActs timeout_ms item q (wake rc left ∷ wakes) o
PushActs-later timeout_ms item q left rc wakes (returned r out after) (p, seen, did) =
    (p, inr seen, did)
PushActs-later timeout_ms item q left rc wakes aborted h = h
PushActs-later timeout_ms item q left rc wakes (waiting p) h = (inr h.0, h.1, h.2)

full_and_open :
    (q : BoundedQueue)
    → ((q.size == q.capacity) && not q.is_closed) ≡ true
    → (q.size ≡ q.capacity) × (q.is_closed ≡ false)
full_and_open q h = ground arith

push_now-PushActs :
    (timeout_ms : ℤ) (item : Item) (q : BoundedQueue) (wakes : List Wake)
    → IsValid q
    → ((q.size == q.capacity) && not q.is_closed) ≡ false
    → PushActs timeout_ms item q wakes (push_now item q)
unfolding push_now
push_now-PushActs timeout_ms item q wakes v go =
    if_both (PushActs timeout_ms item q wakes) q.is_closed _ _
      (λ shut. (q, SeenIn-first q wakes, (shut, refl)))
      λ is_open.
        if_both (PushActs timeout_ms item q wakes) (ltb q.size q.capacity) _ _
          (λ room.
            let less = ltb→lt q.size q.capacity room in
            (q, SeenIn-first q wakes, (is_open, less, contents-pushed item v less)))
          (λ no_room. absurd (ground arith))

after_wait-PushActs :
    (timeout_ms : ℤ) (item : Item) (left : BoundedQueue) (rc : ℕ) (wakes : List Wake)
    (again : Outcome)
    → PushActs timeout_ms item left wakes again
    → PushActs timeout_ms item left wakes (after_wait timeout_ms rc left again)
unfolding after_wait
after_wait-PushActs (pos n) item left rc wakes again h =
    if_both (PushActs (pos n) item left wakes) (rc == etimedout) _ _
      (λ e. (left, SeenIn-first left wakes, (tt, refl)))
      (λ e.
        if_both (PushActs (pos n) item left wakes) (rc != 0) _ _
          (λ d. (left, SeenIn-first left wakes, refl)) (λ d. h))
after_wait-PushActs (negsuc n) item left rc wakes again h =
    if_both (PushActs (negsuc n) item left wakes) (rc != 0) _ _
      (λ d. (left, SeenIn-first left wakes, refl)) (λ d. h)

push_loop-PushActs :
    (timeout_ms : ℤ) (item : Item) (q : BoundedQueue) (wakes : List Wake)
    → IsValid q
    → WakesValid wakes
    → PushActs timeout_ms item q wakes (push_loop timeout_ms item q wakes)
unfolding push_loop
push_loop-PushActs (pos zero) item q wakes v w =
    if_both (PushActs (pos zero) item q wakes) _ _ _ (λ full. (q, SeenIn-first q wakes, (tt, refl)))
      (λ go. push_now-PushActs (pos zero) item q wakes v go)
push_loop-PushActs (pos (suc n)) item q [] v w =
    if_both (PushActs (pos (suc n)) item q []) _ _ _
      (λ full. let facts = full_and_open q full in (refl, facts.0, facts.1))
      (λ go. push_now-PushActs (pos (suc n)) item q [] v go)
push_loop-PushActs (pos (suc n)) item q (wake rc left ∷ wakes) v w =
    if_both (PushActs (pos (suc n)) item q (wake rc left ∷ wakes)) _ _ _
      (λ full. PushActs-later (pos (suc n)) item q left rc wakes _ (
        after_wait-PushActs (pos (suc n)) item left rc wakes _
          (push_loop-PushActs (pos (suc n)) item left wakes w.0 w.1)))
      (λ go. push_now-PushActs (pos (suc n)) item q (wake rc left ∷ wakes) v go)
push_loop-PushActs (negsuc n) item q [] v w =
    if_both (PushActs (negsuc n) item q []) _ _ _
      (λ full. let facts = full_and_open q full in (refl, facts.0, facts.1))
      (λ go. push_now-PushActs (negsuc n) item q [] v go)
push_loop-PushActs (negsuc n) item q (wake rc left ∷ wakes) v w =
    if_both (PushActs (negsuc n) item q (wake rc left ∷ wakes)) _ _ _
      (λ full. PushActs-later (negsuc n) item q left rc wakes _ (
        after_wait-PushActs (negsuc n) item left rc wakes _
          (push_loop-PushActs (negsuc n) item left wakes w.0 w.1)))
      (λ go. push_now-PushActs (negsuc n) item q (wake rc left ∷ wakes) v go)

-- A push that is given both pointers acts on the queue as it found it at its start or at one wake:
-- BQ_OK appends the item to an open queue with room, BQ_CLOSED found it closed, BQ_TIMEOUT needs a
-- timeout that is not negative, and each of these and BQ_SYSTEM leaves the queue as found. A push
-- still waits only on a queue that is full and open.
pub bq_push-PushActs :
    (q : BoundedQueue) (item : Item) (timeout_ms : ℤ) (clock_ok : Bool) (wakes : List Wake)
    → IsValid q
    → WakesValid wakes
    → PushActs timeout_ms item q wakes (bq_push true q item timeout_ms clock_ok wakes)
unfolding bq_push
bq_push-PushActs q item timeout_ms clock_ok wakes v w =
    if_both (PushActs timeout_ms item q wakes) q.is_closed _ _
      (λ shut. (q, SeenIn-first q wakes, (shut, refl)))
      λ is_open.
        if_both (PushActs timeout_ms item q wakes) (no_deadline timeout_ms clock_ok) _ _
          (λ e. (q, SeenIn-first q wakes, refl))
          (λ e. push_loop-PushActs timeout_ms item q wakes v w)

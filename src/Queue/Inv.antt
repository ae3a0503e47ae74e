-- ===== src/Queue/Inv.antt =====
-- The representation invariant of the queue in modules/blocking_queue/blocking_queue.c, kept by every
-- call however it is woken.
use edgevision_gateway.Common.{
  ℕ, zero, suc, ◌+◌, ◌-◌, ◌*◌, ◌%◌, ◌^◌, ◌≤◌, ◌<◌, ◌≡◌, refl, sym, ◌∙◌, ap, subst, Option-cases,
  arith, Bool, true, false, not, ◌&&◌, Option, some, List, [], ◌∷◌, length, length-set, set,
  add_size, ◌==◌, inl, inr, if_both, ltb→lt, ltb, ◌!=◌,
}
use native.Mathlib.Nat.{mod-add-mod}
use edgevision_gateway.Common.Int.{ℤ, pos, negsuc}
use edgevision_gateway.Queue.{
  etimedout, Item, ok, BoundedQueue, Wake, wake, Outcome, returned, aborted, waiting, bq_init,
  push_now, after_wait, push_loop, no_deadline, bq_push, pop_now, pop_loop, bq_pop,
}

pub record IsValid (q : BoundedQueue) : Type 0 where
  pub storage : q.capacity ≤ length q.buffer
  pub small : q.capacity < 2 ^ 64
  pub head_in : q.head < q.capacity
  pub size_in : q.size ≤ q.capacity
  pub tail_is : q.tail ≡ (q.head + q.size) % q.capacity

-- No assert fails, and the queue that a call leaves, or waits on, is valid.
abbrev pub Safe : Outcome → Type 0
Safe (returned r out q) = IsValid q
Safe aborted = ⊥
Safe (waiting q) = IsValid q

-- The other threads leave the queue valid.
abbrev pub WakesValid : List Wake → Type 0
WakesValid [] = Unit
WakesValid (wake rc q ∷ wakes) = IsValid q × WakesValid wakes

-- The queue with one more item, and with the oldest one gone.
abbrev pub pushed : Item → BoundedQueue → BoundedQueue
pushed item q = record q {
  buffer = set q.buffer q.tail item;
  tail = add_size q.tail 1 % q.capacity;
  size = add_size q.size 1;
}

abbrev pub popped : BoundedQueue → BoundedQueue
popped q = record q { head = add_size q.head 1 % q.capacity; size = q.size - 1 }

-- A step round the ring.
pub shift_slot : (n h k : ℕ) → ((h + 1) % n + k) % n ≡ (h + suc k) % n
shift_slot n h k = mod-add-mod (h + 1) n k ∙ ap (λ (t : ℕ). t % n) (omega arith)

add_one : (a : ℕ) → a + 1 < 2 ^ 64 → add_size a 1 ≡ a + 1
add_one a h = omega arith

pub pushed-IsValid :
    (item : Item) {q : BoundedQueue} → IsValid q → q.size < q.capacity → IsValid (pushed item q)
pushed-IsValid item {q} v room =
    let tail_in : q.tail < q.capacity = omega arith in
    record {
      storage = omega (arith, length-set q.buffer q.tail item);
      small = v.small;
      head_in = v.head_in;
      size_in = omega arith;
      tail_is =
          ap (λ (t : ℕ). t % q.capacity) (add_one q.tail (omega arith))
          ∙ ap (λ (t : ℕ). (t + 1) % q.capacity) v.tail_is
          ∙ mod-add-mod (q.head + q.size) q.capacity 1
          ∙ ap (λ (t : ℕ). t % q.capacity) (omega arith);
    }

pub popped-IsValid : {q : BoundedQueue} → IsValid q → 0 < q.size → IsValid (popped q)
popped-IsValid {q} v some_left = record {
  storage = v.storage;
  small = v.small;
  head_in = omega arith;
  size_in = omega arith;
  tail_is =
      v.tail_is
      ∙ ap (λ (t : ℕ). t % q.capacity) (omega arith)
      ∙ sym (mod-add-mod (add_size q.head 1) q.capacity (q.size - 1));
}

-- Each part of a call is safe; a full queue that is open never reaches the write.
push_now-Safe :
    (item : Item) (q : BoundedQueue)
    → IsValid q
    → ((q.size == q.capacity) && not q.is_closed) ≡ false
    → Safe (push_now item q)
unfolding push_now
push_now-Safe item q v go =
    if_both Safe q.is_closed _ _ (λ shut. v)
      λ is_open.
        if_both Safe (ltb q.size q.capacity) _ _
          (λ room. pushed-IsValid item v (ltb→lt q.size q.capacity room))
          (λ no_room. absurd (ground arith))

pop_now-Safe :
    (q : BoundedQueue) → IsValid q → ((q.size == 0) && not q.is_closed) ≡ false → Safe (pop_now q)
unfolding pop_now
pop_now-Safe q v go =
    if_both Safe (q.is_closed && (q.size == 0)) _ _ (λ shut. v)
      λ going.
        if_both Safe (ltb 0 q.size) _ _ (λ some_left. popped-IsValid v (ltb→lt 0 q.size some_left))
          (λ nothing. absurd (ground arith))

after_wait-Safe :
    (timeout_ms : ℤ) (rc : ℕ) (q : BoundedQueue) (again : Outcome)
    → IsValid q
    → Safe again
    → Safe (after_wait timeout_ms rc q again)
unfolding after_wait
after_wait-Safe (pos n) rc q again v h =
    if_both Safe (rc == etimedout) _ _ (λ e. v) (λ e. if_both Safe (rc != 0) _ _ (λ d. v) (λ d. h))
after_wait-Safe (negsuc n) rc q again v h = if_both Safe (rc != 0) _ _ (λ d. v) (λ d. h)

push_loop-Safe :
    (timeout_ms : ℤ) (item : Item) (q : BoundedQueue) (wakes : List Wake)
    → IsValid q
    → WakesValid wakes
    → Safe (push_loop timeout_ms item q wakes)
unfolding push_loop
push_loop-Safe (pos zero) item q wakes v w =
    if_both Safe _ _ _ (λ full. v) (λ go. push_now-Safe item q v go)
push_loop-Safe (pos (suc n)) item q [] v w =
    if_both Safe _ _ _ (λ full. v) (λ go. push_now-Safe item q v go)
push_loop-Safe (pos (suc n)) item q (wake rc left ∷ wakes) v w =
    if_both Safe _ _ _
      (λ full.
        after_wait-Safe (pos (suc n)) rc left _ w.0
          (push_loop-Safe (pos (suc n)) item left wakes w.0 w.1))
      (λ go. push_now-Safe item q v go)
push_loop-Safe (negsuc n) item q [] v w =
    if_both Safe _ _ _ (λ full. v) (λ go. push_now-Safe item q v go)
push_loop-Safe (negsuc n) item q (wake rc left ∷ wakes) v w =
    if_both Safe _ _ _
      (λ full.
        after_wait-Safe (negsuc n) rc left _ w.0
          (push_loop-Safe (negsuc n) item left wakes w.0 w.1))
      (λ go. push_now-Safe item q v go)

pop_loop-Safe :
    (timeout_ms : ℤ) (q : BoundedQueue) (wakes : List Wake)
    → IsValid q
    → WakesValid wakes
    → Safe (pop_loop timeout_ms q wakes)
unfolding pop_loop
pop_loop-Safe (pos zero) q wakes v w =
    if_both Safe _ _ _ (λ none_left. v) (λ go. pop_now-Safe q v go)
pop_loop-Safe (pos (suc n)) q [] v w =
    if_both Safe _ _ _ (λ none_left. v) (λ go. pop_now-Safe q v go)
pop_loop-Safe (pos (suc n)) q (wake rc left ∷ wakes) v w =
    if_both Safe _ _ _
      (λ none_left.
        after_wait-Safe (pos (suc n)) rc left _ w.0
          (pop_loop-Safe (pos (suc n)) left wakes w.0 w.1))
      (λ go. pop_now-Safe q v go)
pop_loop-Safe (negsuc n) q [] v w = if_both Safe _ _ _ (λ none_left. v) (λ go. pop_now-Safe q v go)
pop_loop-Safe (negsuc n) q (wake rc left ∷ wakes) v w =
    if_both Safe _ _ _
      (λ none_left.
        after_wait-Safe (negsuc n) rc left _ w.0 (pop_loop-Safe (negsuc n) left wakes w.0 w.1))
      (λ go. pop_now-Safe q v go)

-- From a valid queue, with other threads that leave it valid at every wait, a push and a pop with any
-- timeout fail no assert, and the queue that they return or still wait on is valid.
pub push_pop-Safe :
    (non_null : Bool) (q : BoundedQueue) (item : Item) (timeout_ms : ℤ) (clock_ok : Bool)
    (wakes : List Wake)
    → IsValid q
    → WakesValid wakes
    → Safe (bq_push non_null q item timeout_ms clock_ok wakes)
      × Safe (bq_pop non_null q timeout_ms clock_ok wakes)
unfolding bq_push bq_pop
push_pop-Safe non_null q item timeout_ms clock_ok wakes v w = (
  if_both Safe (not non_null) _ _ (λ e. v)
      (λ e.
        if_both Safe q.is_closed _ _ (λ e. v)
          (λ e.
            if_both Safe (no_deadline timeout_ms clock_ok) _ _ (λ e. v)
              (λ e. push_loop-Safe timeout_ms item q wakes v w))),
  if_both Safe (not non_null) _ _ (λ e. v)
      (λ e.
        if_both Safe (no_deadline timeout_ms clock_ok) _ _ (λ e. v)
          (λ e. pop_loop-Safe timeout_ms q wakes v w)),
)

abbrev pub empty_queue : List Item → ℕ → ℕ → BoundedQueue
empty_queue storage capacity element_size = record {
  buffer = storage;
  element_size = element_size;
  capacity = capacity;
  size = 0;
  head = 0;
  tail = 0;
  is_closed = false;
}

slots_enough : (c e n : ℕ) → 0 < e → e * c ≤ n * e → c ≤ n
slots_enough c e n he h = grind arith

below : (c e : ℕ) → 0 < e → e * c < 2 ^ 64 → c < 2 ^ 64
below c e he h = grind arith

-- What bq_init leaves on success is valid and empty, if malloc returns a block of at least the bytes
-- it was asked for and the product of the two sizes fits a size_t.
pub bq_init-IsValid :
    (malloc : ℕ → Option (List Item)) (mutex_rc not_empty_rc not_full_rc capacity element_size : ℕ)
    {q : BoundedQueue}
    → ((bytes : ℕ) (storage : List Item)
        → malloc bytes ≡ some storage
        → bytes ≤ length storage * element_size)
    → element_size * capacity < 2 ^ 64
    → bq_init true malloc mutex_rc not_empty_rc not_full_rc capacity element_size ≡ (ok, some q)
    → IsValid q × (q.size ≡ 0) × (q.is_closed ≡ false) × (q.capacity ≡ capacity)
unfolding bq_init
bq_init-IsValid malloc m e f capacity element_size {q} blocks fits run =
    elim (Option-cases (malloc ((element_size * capacity) % 2 ^ 64))) [
      | inl no_block ↦ absurd (ground arith)
      | inr (storage, block) ↦
          let sizes : (0 < capacity) × (0 < element_size) = ground arith in
          let made : q ≡ empty_queue storage capacity element_size = ground arith in
          let enough = blocks _ storage block in
          let small : element_size * capacity % 2 ^ 64 ≡ element_size * capacity = omega arith in
          let slots : capacity ≤ length storage =
            slots_enough capacity element_size (length storage) sizes.1 (rw small at enough) in
          let fresh : IsValid (empty_queue storage capacity element_size) = record {
            storage = slots;
            small = below capacity element_size sizes.1 fits;
            head_in = sizes.0;
            size_in = omega arith;
            tail_is = omega arith;
          } in
          subst (λ p. IsValid p × (p.size ≡ 0) × (p.is_closed ≡ false) × (p.capacity ≡ capacity))
            (sym made) (fresh, refl, refl, refl)
    ]

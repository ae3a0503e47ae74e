-- ===== src/Queue.antt =====
-- modules/blocking_queue/blocking_queue.c: the bounded queue between the gateway's workers. A slot of
-- `buffer` is the `element_size` bytes that memcpy moves. Each call runs under the mutex, so its
-- only other point of contact is a wait: what a wait brings is a `Wake`, the return code of
-- pthread_cond_wait or pthread_cond_timedwait and the queue as the other threads have left it. A
-- call takes the list of its wakes; behind the last of them it still waits.
pub mod Inv
pub mod Contents
pub mod Refine
pub mod RefinePop
pub mod History
pub mod Deadline
mod Tests
use edgevision_gateway.Common.{
  ℕ, zero, suc, ◌+◌, ◌-◌, ◌*◌, ◌%◌, ◌^◌, Bool, true, false, not, ◌&&◌, Option, none, some, List, [],
  ◌∷◌, get_or, set, ltb, ◌==◌, ◌!=◌, if◌then◌else◌, add_size,
}
use edgevision_gateway.Common.Int.{ℤ, pos, negsuc}

abbrev pub Item : Type 0
Item = List ℕ

-- BQ_OK, BQ_CLOSED, BQ_TIMEOUT, BQ_INVALID, BQ_NOMEM and BQ_SYSTEM.
pub data BqResult : Type 0 where
  ok closed timeout invalid nomem system : BqResult

pub record BoundedQueue : Type 0 where
  pub buffer : List Item
  pub element_size : ℕ
  pub capacity : ℕ
  pub size : ℕ
  pub head : ℕ
  pub tail : ℕ
  pub is_closed : Bool

pub data Wake : Type 0 where
  wake : ℕ → BoundedQueue → Wake

-- How a call ends: with a result, in a failed assert, or not yet.
pub data Outcome : Type 0 where
  returned : BqResult → Option Item → BoundedQueue → Outcome
  aborted : Outcome
  waiting : BoundedQueue → Outcome

abbrev pub etimedout : ℕ
etimedout = 110

-- `malloc` takes a number of bytes and returns slots; the three numbers are what the initialisers
-- of the mutex and the two condition variables return. Only a call that returns BQ_OK leaves a
-- queue.
pub bq_init : Bool → (ℕ → Option (List Item)) → ℕ → ℕ → ℕ → ℕ → ℕ → BqResult × Option BoundedQueue
bq_init non_null malloc mutex_rc not_empty_rc not_full_rc capacity element_size =
    if not non_null
    then (invalid, none)
    else if capacity == 0
    then (invalid, none)
    else if element_size == 0
    then (invalid, none)
    else elim (malloc ((element_size * capacity) % 2 ^ 64)) [
      | none ↦ (nomem, none)
      | some storage ↦
          if (mutex_rc == 0) && ((not_empty_rc == 0) && (not_full_rc == 0))
          then (
            ok,
            some (record {
              buffer = storage;
              element_size = element_size;
              capacity = capacity;
              size = 0;
              head = 0;
              tail = 0;
              is_closed = false;
            }),
          )
          else (system, none)
    ]

-- bq_push behind its loop.
pub push_now : Item → BoundedQueue → Outcome
push_now item q =
    if q.is_closed
    then returned closed none q
    else if ltb q.size q.capacity
    then returned ok none (record q {
      buffer = set q.buffer q.tail item;
      tail = add_size q.tail 1 % q.capacity;
      size = add_size q.size 1;
    })
    else aborted

-- What the loop does with the return code of a wait; `again` goes on.
pub after_wait : ℤ → ℕ → BoundedQueue → Outcome → Outcome
after_wait (pos _) rc q again =
    if rc == etimedout
    then returned timeout none q
    else if rc != 0
    then returned system none q
    else again
after_wait (negsuc _) rc q again = if rc != 0 then returned system none q else again

-- The loop of bq_push on the wakes.
pub push_loop : ℤ → Item → BoundedQueue → List Wake → Outcome
push_loop (pos zero) item q wakes =
    if (q.size == q.capacity) && not q.is_closed then returned timeout none q else push_now item q
push_loop timeout_ms item q [] =
    if (q.size == q.capacity) && not q.is_closed then waiting q else push_now item q
push_loop timeout_ms item q (wake rc left ∷ wakes) =
    let again = push_loop timeout_ms item left wakes in
    if (q.size == q.capacity) && not q.is_closed
    then after_wait timeout_ms rc left again
    else push_now item q

-- Whether make_deadline is called, and fails.
pub no_deadline : ℤ → Bool → Bool
no_deadline (pos (suc n)) clock_ok = not clock_ok
no_deadline (pos zero) clock_ok = false
no_deadline (negsuc n) clock_ok = false

-- `non_null` says that both pointers are there, `clock_ok` that clock_gettime succeeds.
pub bq_push : Bool → BoundedQueue → Item → ℤ → Bool → List Wake → Outcome
bq_push non_null q item timeout_ms clock_ok wakes =
    if not non_null
    then returned invalid none q
    else if q.is_closed
    then returned closed none q
    else if no_deadline timeout_ms clock_ok
    then returned system none q
    else push_loop timeout_ms item q wakes

pub pop_now : BoundedQueue → Outcome
pop_now q =
    if q.is_closed && (q.size == 0)
    then returned closed none q
    else if ltb 0 q.size
    then returned ok (some (get_or q.buffer q.head []))
        (record q { head = add_size q.head 1 % q.capacity; size = q.size - 1 })
    else aborted

pub pop_loop : ℤ → BoundedQueue → List Wake → Outcome
pop_loop (pos zero) q wakes =
    if (q.size == 0) && not q.is_closed then returned timeout none q else pop_now q
pop_loop timeout_ms q [] = if (q.size == 0) && not q.is_closed then waiting q else pop_now q
pop_loop timeout_ms q (wake rc left ∷ wakes) =
    let again = pop_loop timeout_ms left wakes in
    if (q.size == 0) && not q.is_closed then after_wait timeout_ms rc left again else pop_now q

pub bq_pop : Bool → BoundedQueue → ℤ → Bool → List Wake → Outcome
bq_pop non_null q timeout_ms clock_ok wakes =
    if not non_null
    then returned invalid none q
    else if no_deadline timeout_ms clock_ok
    then returned system none q
    else pop_loop timeout_ms q wakes

pub bq_close : Bool → BoundedQueue → BqResult × BoundedQueue
bq_close non_null q = if not non_null then (invalid, q) else (ok, record q { is_closed = true })

-- The size that is stored at `out_size`, if any.
pub bq_size : Bool → BoundedQueue → BqResult × Option ℕ
bq_size non_null q = if not non_null then (invalid, none) else (ok, some q.size)

-- The numbers are what the three destructors return. The Boolean says whether the buffer is freed.
pub bq_destroy : Bool → ℕ → ℕ → ℕ → BqResult × Bool
bq_destroy non_null not_full_rc not_empty_rc mutex_rc =
    if not non_null
    then (invalid, false)
    else if not_full_rc != 0
    then (system, false)
    else if not_empty_rc != 0
    then (system, false)
    else if mutex_rc != 0
    then (system, false)
    else (ok, true)

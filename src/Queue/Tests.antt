-- ===== src/Queue/Tests.antt =====
-- The queue of modules/blocking_queue/blocking_queue.c on concrete calls, and the theorems about it at
-- inputs that meet their hypotheses.
use edgevision_gateway.Common.{
  ℕ, zero, suc, ◌+◌, ◌*◌, ◌≤◌, ◌<◌, ◌≡◌, refl, ap, arith, true, false, Option, none, some, List, [],
  ◌∷◌, ◌++◌, ◌⊎◌, length,
}
use edgevision_gateway.Common.Int.{pos, negsuc}
use edgevision_gateway.Queue.{
  Item, ok, closed, timeout, system, BoundedQueue, Wake, wake, returned, bq_init, bq_push, bq_pop,
  bq_close, push_now, push_loop, pop_now, pop_loop, after_wait, no_deadline, etimedout,
}
use edgevision_gateway.Queue.Inv.{IsValid, Safe, push_pop-Safe, empty_queue, popped}
use edgevision_gateway.Queue.Contents.{contents}
use edgevision_gateway.Queue.Refine.{PushActs, bq_push-PushActs}
use edgevision_gateway.Queue.RefinePop.{PopActs, bq_pop-PopActs}
use edgevision_gateway.Queue.History.{
  Run, begin, push, pop, close, Run-fifo, LacksDeadline, bq_close_lem,
}
use edgevision_gateway.Queue.Deadline.{Timespec, make_deadline, make_deadline_lem}

abbrev item : ℕ → Item
item n = n ∷ []

-- Two slots of one byte, full, the older item in the second slot.
abbrev full : BoundedQueue
full = record {
  buffer = item 9 ∷ item 8 ∷ [];
  element_size = 1;
  capacity = 2;
  size = 2;
  head = 1;
  tail = 1;
  is_closed = false;
}

abbrev one_left : BoundedQueue
one_left = record full { head = 0; size = 1 }

full-IsValid : IsValid full
full-IsValid = omega arith

one_left-IsValid : IsValid one_left
one_left-IsValid = omega arith

-- A push that waits on the full queue and is woken when one item is gone.
push_after_wake :
    bq_push true full (item 7) (negsuc 0) true (wake 0 one_left ∷ [])
    ≡ returned ok none (record full { buffer = item 9 ∷ item 7 ∷ []; head = 0; tail = 0 })
unfolding bq_push push_loop no_deadline after_wait push_now
push_after_wake = refl

push_times_out :
    bq_push true full (item 7) (pos 5) true (wake etimedout full ∷ []) ≡ returned timeout none full
unfolding bq_push push_loop no_deadline after_wait push_now
push_times_out = refl

abbrev wakes : List Wake
wakes = wake 0 one_left ∷ []

push_pop-Safe_example :
    Safe (bq_push true full (item 7) (negsuc 0) true wakes)
    × Safe (bq_pop true full (negsuc 0) true wakes)
push_pop-Safe_example =
    push_pop-Safe true full (item 7) (negsuc 0) true wakes full-IsValid (one_left-IsValid, tt)

bq_push-PushActs_example :
    PushActs (negsuc 0) (item 7) full wakes (bq_push true full (item 7) (negsuc 0) true wakes)
bq_push-PushActs_example =
    bq_push-PushActs full (item 7) (negsuc 0) true wakes full-IsValid (one_left-IsValid, tt)

bq_pop-PopActs_example : PopActs (pos 5) full wakes (bq_pop true full (pos 5) true wakes)
bq_pop-PopActs_example = bq_pop-PopActs full (pos 5) true wakes full-IsValid (one_left-IsValid, tt)

-- A malloc that never fails, with slots of one byte.
abbrev blank : ℕ → List Item
blank zero = []
blank (suc n) = [] ∷ blank n

abbrev plain_malloc : ℕ → Option (List Item)
plain_malloc bytes = some (blank bytes)

length-blank : (n : ℕ) → length (blank n) ≡ n
length-blank zero = refl
length-blank (suc n) = ap suc (length-blank n)

plain_malloc_enough :
    (bytes : ℕ) (storage : List Item)
    → plain_malloc bytes ≡ some storage
    → bytes ≤ length storage * 1
plain_malloc_enough bytes storage e = ground (arith, length-blank bytes)

init_two : bq_init true plain_malloc 0 0 0 2 1 ≡ (ok, some (empty_queue (blank 2) 2 1))
unfolding bq_init
init_two = refl

abbrev fresh : BoundedQueue
fresh = empty_queue (blank 2) 2 1

fresh-IsValid : IsValid fresh
fresh-IsValid = omega arith

abbrev holding_five : BoundedQueue
holding_five = record fresh { buffer = item 5 ∷ [] ∷ []; tail = 1; size = 1 }

abbrev drained : BoundedQueue
drained = record holding_five { head = 1; size = 0 }

push_five : bq_push true fresh (item 5) (pos 0) true [] ≡ returned ok none holding_five
unfolding bq_push push_loop no_deadline push_now
push_five = refl

pop_five : bq_pop true holding_five (pos 0) true [] ≡ returned ok (some (item 5)) drained
unfolding bq_pop pop_loop no_deadline pop_now
pop_five = refl

-- One item in and out, then the queue is closed.
in_and_out : Run fresh (item 5 ∷ []) (item 5 ∷ []) (bq_close true drained).1
in_and_out = close (
    pop (push (begin refl refl) (item 5) (pos 0) true ok none push_five refl) (pos 0) true ok
      (some (item 5)) pop_five refl)

Run-fifo_example :
    IsValid (bq_close true drained).1
    × (item 5 ∷ [] ≡ (item 5 ∷ []) ++ contents (bq_close true drained).1)
Run-fifo_example = Run-fifo fresh-IsValid refl in_and_out

bq_close_lem_example :
    (bq_push true (bq_close true full).1 (item 7) (pos 5) true []
      ≡ returned closed none (bq_close true full).1)
    × ((LacksDeadline (pos 5) true
          × (bq_pop true (bq_close true full).1 (pos 5) true []
              ≡ returned system none (bq_close true full).1))
        ⊎ ((¬ LacksDeadline (pos 5) true)
            × (((0 < 2)
                  × (bq_pop true (bq_close true full).1 (pos 5) true []
                      ≡ returned ok (some (item 8)) (popped (bq_close true full).1)))
                ⊎ ((◌≡◌ {A = ℕ} 2 0)
                    × (bq_pop true (bq_close true full).1 (pos 5) true []
                        ≡ returned closed none (bq_close true full).1)))))
bq_close_lem_example = bq_close_lem full (item 7) (pos 5) true [] full-IsValid

make_deadline_lem_example :
    (deadline : Timespec) × (make_deadline (some (record { tv_sec = 10; tv_nsec = 999000000 })) 1500
      ≡ some deadline)
    × (deadline.tv_nsec < 1000000000)
    × (deadline.tv_sec * 1000000000 + deadline.tv_nsec
        ≡ 10 * 1000000000 + 999000000 + 1500 * 1000000)
make_deadline_lem_example =
    make_deadline_lem (record { tv_sec = 10; tv_nsec = 999000000 }) 1500 (omega arith)

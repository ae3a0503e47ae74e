-- ===== src/Queue/History.antt =====
-- Whole runs of the queue in modules/blocking_queue/blocking_queue.c: any calls of any threads, in the
-- order in which they hold the mutex when they act.
use edgevision_gateway.Common.{
  ◌≡◌, refl, sym, ◌∙◌, ap, subst, arith, Bool, true, false, Option, none, some, List, [], ◌∷◌, ◌++◌,
  append-nil, append_assoc, ◌<◌, ◌⊎◌, inl, inr, get_or, zero, suc,
}
use edgevision_gateway.Common.Int.{ℤ, pos, negsuc}
use native.Mathlib.Decide.{dec_lt}
use edgevision_gateway.Queue.{
  Item, BqResult, ok, closed, timeout, invalid, nomem, system, BoundedQueue, returned, bq_push,
  bq_pop, bq_close, pop_now, pop_loop, no_deadline, Wake, wake,
}
use edgevision_gateway.Queue.Inv.{IsValid, Safe, popped, push_pop-Safe}
use edgevision_gateway.Queue.Contents.{contents}
use edgevision_gateway.Queue.Refine.{Pushed, PushActs, bq_push-PushActs}
use edgevision_gateway.Queue.RefinePop.{Popped, PopActs, bq_pop-PopActs}

-- What a push with this result adds, and what a pop hands out.
abbrev pub accepted : BqResult → Item → List Item
accepted ok item = item ∷ []
accepted closed item = []
accepted timeout item = []
accepted invalid item = []
accepted nomem item = []
accepted system item = []

abbrev pub delivered : Option Item → List Item
delivered none = []
delivered (some item) = item ∷ []

-- From `start` on, the pushes that succeeded brought the first list, the pops the second.
pub data Run (start : BoundedQueue) : List Item → List Item → BoundedQueue → Type 0 where
  begin : {ins outs : List Item} → ins ≡ [] → outs ≡ [] → Run start ins outs start
  push :
      {ins outs ins' : List Item} {q q' : BoundedQueue}
      → Run start ins outs q
      → (item : Item) (timeout_ms : ℤ) (clock_ok : Bool) (r : BqResult) (out : Option Item)
      → bq_push true q item timeout_ms clock_ok [] ≡ returned r out q'
      → ins' ≡ ins ++ accepted r item
      → Run start ins' outs q'
  pop :
      {ins outs outs' : List Item} {q q' : BoundedQueue}
      → Run start ins outs q
      → (timeout_ms : ℤ) (clock_ok : Bool) (r : BqResult) (out : Option Item)
      → bq_pop true q timeout_ms clock_ok [] ≡ returned r out q'
      → outs' ≡ outs ++ delivered out
      → Run start ins outs' q'
  close :
      {ins outs : List Item} {q : BoundedQueue}
      → Run start ins outs q
      → Run start ins outs (bq_close true q).1

abbrev IsFifo : List Item → List Item → BoundedQueue → Type 0
IsFifo ins outs q = ins ≡ outs ++ contents q

Pushed-IsFifo :
    (ins outs : List Item) (item : Item) (timeout_ms : ℤ) (r : BqResult) (q q' : BoundedQueue)
    → Pushed timeout_ms item r q q'
    → IsFifo ins outs q
    → IsFifo (ins ++ accepted r item) outs q'
Pushed-IsFifo ins outs item timeout_ms ok q q' did h =
    ap (λ (t : List Item). t ++ item ∷ []) h
    ∙ append_assoc outs (contents q) (item ∷ [])
    ∙ ap (λ (t : List Item). outs ++ t) (sym (did.2))
Pushed-IsFifo ins outs item timeout_ms closed q q' did h =
    append-nil ins ∙ h ∙ ap (λ (p : BoundedQueue). outs ++ contents p) (sym (did.1))
Pushed-IsFifo ins outs item timeout_ms timeout q q' did h =
    append-nil ins ∙ h ∙ ap (λ (p : BoundedQueue). outs ++ contents p) (sym (did.1))
Pushed-IsFifo ins outs item timeout_ms system q q' did h =
    append-nil ins ∙ h ∙ ap (λ (p : BoundedQueue). outs ++ contents p) (sym did)
Pushed-IsFifo ins outs item timeout_ms invalid q q' did h = absurd did
Pushed-IsFifo ins outs item timeout_ms nomem q q' did h = absurd did

Popped-IsFifo :
    (ins outs : List Item) (timeout_ms : ℤ) (r : BqResult) (out : Option Item) (q q' : BoundedQueue)
    → Popped timeout_ms r out q q'
    → IsFifo ins outs q
    → IsFifo ins (outs ++ delivered out) q'
Popped-IsFifo ins outs timeout_ms ok (some item) q q' did h =
    h ∙ ap (λ (t : List Item). outs ++ t) did ∙ sym (append_assoc outs (item ∷ []) (contents q'))
Popped-IsFifo ins outs timeout_ms closed none q q' did h =
    h
    ∙ ap (λ (p : BoundedQueue). outs ++ contents p) (sym (did.2))
    ∙ ap (λ (t : List Item). t ++ contents q') (sym (append-nil outs))
Popped-IsFifo ins outs timeout_ms timeout none q q' did h =
    h
    ∙ ap (λ (p : BoundedQueue). outs ++ contents p) (sym (did.1))
    ∙ ap (λ (t : List Item). t ++ contents q') (sym (append-nil outs))
Popped-IsFifo ins outs timeout_ms system none q q' did h =
    h
    ∙ ap (λ (p : BoundedQueue). outs ++ contents p) (sym did)
    ∙ ap (λ (t : List Item). t ++ contents q') (sym (append-nil outs))
Popped-IsFifo ins outs timeout_ms _ _ q q' did h = absurd did

push-IsFifo :
    (ins outs : List Item) (item : Item) (timeout_ms : ℤ) (clock_ok : Bool) (r : BqResult)
    (out : Option Item) (q q' : BoundedQueue)
    → IsValid q
    → bq_push true q item timeout_ms clock_ok [] ≡ returned r out q'
    → IsFifo ins outs q
    → IsValid q' × IsFifo (ins ++ accepted r item) outs q'
push-IsFifo ins outs item timeout_ms clock_ok r out q q' v e h =
    let (p, here, did) =
      subst (PushActs timeout_ms item q []) e
        (bq_push-PushActs q item timeout_ms clock_ok [] v tt) in
    (
      subst Safe e (push_pop-Safe true q item timeout_ms clock_ok [] v tt).0,
      Pushed-IsFifo ins outs item timeout_ms r q q'
          (subst (λ s. Pushed timeout_ms item r s q') here did) h,
    )

pop-IsFifo :
    (ins outs : List Item) (timeout_ms : ℤ) (clock_ok : Bool) (r : BqResult) (out : Option Item)
    (q q' : BoundedQueue)
    → IsValid q
    → bq_pop true q timeout_ms clock_ok [] ≡ returned r out q'
    → IsFifo ins outs q
    → IsValid q' × IsFifo ins (outs ++ delivered out) q'
pop-IsFifo ins outs timeout_ms clock_ok r out q q' v e h =
    let (p, here, did) =
      subst (PopActs timeout_ms q []) e (bq_pop-PopActs q timeout_ms clock_ok [] v tt) in
    (
      subst Safe e (push_pop-Safe true q [] timeout_ms clock_ok [] v tt).1,
      Popped-IsFifo ins outs timeout_ms r out q q'
          (subst (λ s. Popped timeout_ms r out s q') here did) h,
    )

bq_close-IsValid : (q : BoundedQueue) → IsValid q → IsValid (bq_close true q).1
unfolding bq_close
bq_close-IsValid q v = ground arith

bq_close-IsFifo :
    (ins outs : List Item) (q : BoundedQueue)
    → IsFifo ins outs q
    → IsFifo ins outs (bq_close true q).1
unfolding bq_close
bq_close-IsFifo ins outs q h = h

-- In every run from a valid empty queue, the items pushed are those popped, in the same order,
-- followed by those still inside: none is lost, doubled or overtaken. The queue stays valid.
pub Run-fifo :
    {start q : BoundedQueue} {ins outs : List Item}
    → IsValid start
    → contents start ≡ []
    → Run start ins outs q
    → IsValid q × (ins ≡ outs ++ contents q)
Run-fifo {start} {outs} v empty (begin e f) =
    (v, e ∙ sym empty ∙ ap (λ (t : List Item). t ++ contents start) (sym f))
Run-fifo v empty (push {ins} {outs} {q = p} {q' = q} run item timeout_ms clock_ok r out e f) =
    let (valid, fifo) = Run-fifo v empty run in
    let (valid', fifo') = push-IsFifo ins outs item timeout_ms clock_ok r out p q valid e fifo in
    (valid', f ∙ fifo')
Run-fifo v empty (pop {ins} {outs} {q = p} {q' = q} run timeout_ms clock_ok r out e f) =
    let (valid, fifo) = Run-fifo v empty run in
    let (valid', fifo') = pop-IsFifo ins outs timeout_ms clock_ok r out p q valid e fifo in
    (valid', fifo' ∙ ap (λ (t : List Item). t ++ contents q) (sym f))
Run-fifo v empty (close {ins} {outs} {q} run) =
    let (valid, fifo) = Run-fifo v empty run in
    (bq_close-IsValid q valid, bq_close-IsFifo ins outs q fifo)

pop_loop_closed :
    (q : BoundedQueue) (timeout_ms : ℤ) (wakes : List Wake)
    → q.is_closed ≡ true
    → pop_loop timeout_ms q wakes ≡ pop_now q
unfolding pop_loop
pop_loop_closed q (pos zero) wakes h = ground arith
pop_loop_closed q (pos (suc n)) [] h = ground arith
pop_loop_closed q (pos (suc n)) (wake rc left ∷ wakes) h = ground arith
pop_loop_closed q (negsuc n) [] h = ground arith
pop_loop_closed q (negsuc n) (wake rc left ∷ wakes) h = ground arith

-- A deadline is needed, and the clock for it fails.
abbrev pub LacksDeadline : ℤ → Bool → Type 0
LacksDeadline (pos zero) clock_ok = ⊥
LacksDeadline (pos (suc n)) clock_ok = clock_ok ≡ false
LacksDeadline (negsuc n) clock_ok = ⊥

no_deadline-cases :
    (timeout_ms : ℤ) (clock_ok : Bool)
    → (LacksDeadline timeout_ms clock_ok × (no_deadline timeout_ms clock_ok ≡ true))
      ⊎ ((¬ LacksDeadline timeout_ms clock_ok) × (no_deadline timeout_ms clock_ok ≡ false))
unfolding no_deadline
no_deadline-cases (pos zero) clock_ok = inr (λ h. h, refl)
no_deadline-cases (pos (suc n)) true = inr (λ h. absurd cc, refl)
no_deadline-cases (pos (suc n)) false = inl (refl, refl)
no_deadline-cases (negsuc n) clock_ok = inr (λ h. h, refl)

closed_pop :
    (q : BoundedQueue) (timeout_ms : ℤ) (clock_ok : Bool) (wakes : List Wake)
    → no_deadline timeout_ms clock_ok ≡ false
    → bq_pop true (record q { is_closed = true }) timeout_ms clock_ok wakes
      ≡ pop_now (record q { is_closed = true })
unfolding bq_pop
closed_pop q timeout_ms clock_ok wakes e =
    rw e (pop_loop_closed (record q { is_closed = true }) timeout_ms wakes refl)

-- Once the queue is closed, every push of an item that is there returns BQ_CLOSED. A pop with a place for its item
-- returns at once, whatever its timeout: where its timeout is positive and clock_gettime fails, with
-- BQ_SYSTEM; otherwise with the oldest item as long as there is one, then with BQ_CLOSED.
pub bq_close_lem :
    (q : BoundedQueue) (item : Item) (timeout_ms : ℤ) (clock_ok : Bool) (wakes : List Wake)
    → IsValid q
    → let shut = (bq_close true q).1 in
      (bq_push true shut item timeout_ms clock_ok wakes ≡ returned closed none shut)
      × ((LacksDeadline timeout_ms clock_ok
            × (bq_pop true shut timeout_ms clock_ok wakes ≡ returned system none shut))
          ⊎ ((¬ LacksDeadline timeout_ms clock_ok)
              × (((0 < q.size)
                    × (bq_pop true shut timeout_ms clock_ok wakes
                        ≡ returned ok (some (get_or q.buffer q.head [])) (popped shut)))
                  ⊎ ((q.size ≡ 0)
                      × (bq_pop true shut timeout_ms clock_ok wakes ≡ returned closed none shut)))))
unfolding bq_close bq_push bq_pop
bq_close_lem q item timeout_ms clock_ok wakes v = (
  refl,
  elim (no_deadline-cases timeout_ms clock_ok) [
    | inl (lacks, e) ↦ inl (lacks, rw e refl)
    | inr (has, e) ↦ inr (
      has,
      elim (dec_lt 0 q.size) [
        | yes some_left ↦
            inl (
              some_left,
              closed_pop q timeout_ms clock_ok wakes e ∙ (unfold pop_now in ground arith),
            )
        | no nothing ↦ inr (
          omega arith,
          closed_pop q timeout_ms clock_ok wakes e ∙ (unfold pop_now in ground arith),
        )
      ],
    )
  ],
)

-- ===== src/Storage/Tables/Updates.antt =====
-- What the UPDATE statements of modules/storage/outbox_store.c do to the queue of pending entries.
use edgevision_gateway.Common.{
  ℕ, suc, ◌+◌, ◌<◌, ◌≡◌, refl, ap, ◌∙◌, arith, Bool, true, false, List, [], ◌∷◌, ◌++◌, length,
  get_or, drop, ◌==◌, ==_false, if◌then◌else◌, if_both, All,
}
use edgevision_gateway.Common.Int.{ℤ, pos}
use edgevision_gateway.Storage.Tables.{
  StoredMeasurement, OutboxRow, plus_one, update_where, set_sent, set_failure, count_state,
}
use edgevision_gateway.Storage.Tables.Pending.{IsAscending, IsEntry, queue_step, queue_of}

module _ (id : ℕ) (f : OutboxRow → OutboxRow) where
  -- No row behind the one with this id has it, too.
  pub update_where_above :
      (low : ℕ) (rows : List OutboxRow)
      → IsAscending low rows
      → id < low
      → update_where id f rows ≡ rows
  unfolding update_where
  update_where_above low [] up h = refl
  update_where_above low (r ∷ rows) (here, up) h =
      rw
        (
          ==_false r.id id (λ e. omega (arith, e)),
          update_where_above (suc r.id) rows up (omega arith),
        )
        refl

  pub update_where-IsAscending :
      ((r : OutboxRow) → (f r).id ≡ r.id)
      → (low : ℕ) (rows : List OutboxRow) → IsAscending low rows
      → IsAscending low (update_where id f rows)
  unfolding update_where
  update_where-IsAscending keeps low [] up = tt
  update_where-IsAscending keeps low (r ∷ rows) (here, up) =
      if_both (λ (s : OutboxRow). IsAscending low (s ∷ update_where id f rows)) (r.id == id) _ _
        (λ h. rw (keeps r) (here, update_where-IsAscending keeps (suc r.id) rows up))
        (λ h. (here, update_where-IsAscending keeps (suc r.id) rows up))

  pub update_where-All :
      (P : OutboxRow → Type 0) (rows : List OutboxRow)
      → ((r : OutboxRow) → P r → P (f r))
      → All P rows
      → All P (update_where id f rows)
  unfolding update_where
  update_where-All P [] keeps h = tt
  update_where-All P (r ∷ rows) keeps (here, later) = (
    if_both P (r.id == id) _ _ (λ e. keeps r here) (λ e. here),
    update_where-All P rows keeps later,
  )

  pub length-update_where : (rows : List OutboxRow) → length (update_where id f rows) ≡ length rows
  unfolding update_where
  length-update_where [] = refl
  length-update_where (r ∷ rows) = ap suc (length-update_where rows)

-- A change that keeps id and state keeps the queue.
pub queue-update_where :
    (id : ℕ) (f : OutboxRow → OutboxRow) (rows : List OutboxRow)
    → ((r : OutboxRow) → ((f r).id ≡ r.id) × ((f r).is_sent ≡ r.is_sent))
    → queue_of (update_where id f rows) ≡ queue_of rows
unfolding update_where
queue-update_where id f [] keeps = refl
queue-update_where id f (r ∷ rows) keeps =
    let later = queue-update_where id f rows keeps in
    if_both
      (λ (s : OutboxRow).
        queue_step s.is_sent s.id (queue_of (update_where id f rows))
        ≡ queue_step r.is_sent r.id (queue_of rows))
      (r.id == id) (f r) r (λ h. cc ((keeps r).0, (keeps r).1, later)) (λ h. cc later)

-- Marking the head of the queue takes it, and nothing else, from the queue.
pub queue-set_sent :
    (id low : ℕ) (now : ℤ) (rows : List OutboxRow) (rest : List ℕ)
    → IsAscending low rows
    → queue_of rows ≡ id ∷ rest
    → queue_of (update_where id (set_sent now) rows) ≡ rest
unfolding update_where set_sent
queue-set_sent id low now [] rest up first = absurd cc
queue-set_sent id low now (r ∷ rows) rest (here, up) first =
    mark r.is_sent refl first (queue-set_sent id (suc r.id) now rows rest up)
  where
    mark :
        (b : Bool)
        → r.is_sent ≡ b
        → queue_step b r.id (queue_of rows) ≡ id ∷ rest
        → (queue_of rows ≡ id ∷ rest → queue_of (update_where id (set_sent now) rows) ≡ rest)
        → queue_of (update_where id (set_sent now) (r ∷ rows)) ≡ rest
    mark true is first ih =
        if_both
          (λ (s : OutboxRow).
            queue_step s.is_sent s.id (queue_of (update_where id (set_sent now) rows)) ≡ rest)
          (r.id == id) (set_sent now r) r (λ h. ih first) (λ h. cc (is, ih first))
    mark false is first ih =
        let head : r.id ≡ id = cc (ap (λ (l : List ℕ). get_or l 0 0) first) in
        let tail : queue_of rows ≡ rest = ap (λ (l : List ℕ). drop 1 l) first in
        let untouched =
          update_where_above id (set_sent now) (suc r.id) rows up (omega (arith, head)) in
        if_both
          (λ (s : OutboxRow).
            queue_step s.is_sent s.id (queue_of (update_where id (set_sent now) rows)) ≡ rest)
          (r.id == id) (set_sent now r) r (λ h. ap queue_of untouched ∙ tail)
          (λ h. absurd (ground (arith, head)))

pub queue-append :
    (rows : List OutboxRow) (r : OutboxRow)
    → r.is_sent ≡ false
    → queue_of (rows ++ r ∷ []) ≡ queue_of rows ++ r.id ∷ []
queue-append [] r h = cc h
queue-append (s ∷ rows) r h = step s.is_sent (queue-append rows r h)
  where
    step :
        (b : Bool)
        → queue_of (rows ++ r ∷ []) ≡ queue_of rows ++ r.id ∷ []
        → queue_step b s.id (queue_of (rows ++ r ∷ []))
          ≡ queue_step b s.id (queue_of rows) ++ r.id ∷ []
    step true e = e
    step false e = ap (λ t. s.id ∷ t) e

pub set_failure_same :
    (t : List ℕ) (r : OutboxRow)
    → ((set_failure t r).id ≡ r.id) × ((set_failure t r).is_sent ≡ r.is_sent)
unfolding set_failure
set_failure_same t r = (refl, refl)

pub set_sent_id : (now : ℤ) (r : OutboxRow) → (set_sent now r).id ≡ r.id
unfolding set_sent
set_sent_id now r = refl

-- Neither change touches what holds of every row.
pub set_sent-IsEntry :
    (now : ℤ) (measurements : List StoredMeasurement) (r : OutboxRow)
    → IsEntry measurements r
    → IsEntry measurements (set_sent now r)
unfolding set_sent
set_sent-IsEntry now measurements r h = h

pub set_failure-IsEntry :
    (t : List ℕ) (measurements : List StoredMeasurement) (r : OutboxRow)
    → IsEntry measurements r
    → IsEntry measurements (set_failure t r)
unfolding set_failure
set_failure-IsEntry t measurements r (has, (n, count), long) = (has, counted_up r.is_sent, long)
  where
    counted_up :
        (b : Bool) → (k : ℕ) × ((if b then r.attempt_count else plus_one r.attempt_count) ≡ pos k)
    counted_up true = (n, count)
    counted_up false = (suc n, ap plus_one count)

-- COUNT of the pending rows is the length of the queue, and both counts together that of the table.
pub count_pending : (rows : List OutboxRow) → count_state false rows ≡ length (queue_of rows)
unfolding count_state
count_pending [] = refl
count_pending (r ∷ rows) = step r.is_sent (count_pending rows)
  where
    step :
        (b : Bool)
        → count_state false rows ≡ length (queue_of rows)
        → (if b then 0 else 1) + count_state false rows ≡ length (queue_step b r.id (queue_of rows))
    step true e = omega (arith, e)
    step false e = omega (arith, e)

pub count_all :
    (rows : List OutboxRow) → count_state false rows + count_state true rows ≡ length rows
unfolding count_state
count_all [] = refl
count_all (r ∷ rows) = ground (arith, count_all rows)

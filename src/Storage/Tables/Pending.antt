-- ===== src/Storage/Tables/Pending.antt =====
-- The outbox of modules/storage/outbox_store.c as a queue of pending entries: reading brings the one
-- that was saved first.
use edgevision_gateway.Common.{
  ℕ, suc, ◌≤◌, ◌≡◌, refl, arith, Bool, true, false, Option, none, some, List, [], ◌∷◌, length, ltb,
  if◌then◌else◌, if_both, All,
}
use edgevision_gateway.Common.Int.{pos}
use edgevision_gateway.Storage.Tables.{
  StoredMeasurement, OutboxRow, payload_of, earlier, joined_row, select_earliest,
}

-- The ids rise from row to row, the first above a bound.
abbrev pub IsAscending : ℕ → List OutboxRow → Type 0
IsAscending low [] = Unit
IsAscending low (r ∷ rows) = (low ≤ r.id) × IsAscending (suc r.id) rows

-- What holds of every row: its measurement is there, and the fields have the form that the table's
-- constraints give them.
abbrev pub IsEntry : List StoredMeasurement → OutboxRow → Type 0
IsEntry measurements r =
    ((p : List ℕ) × (payload_of r.measurement_id measurements ≡ some p))
    × ((n : ℕ) × (r.attempt_count ≡ pos n))
    × (length r.message_id ≡ 32)

abbrev pub queue_step : Bool → ℕ → List ℕ → List ℕ
queue_step true id later = later
queue_step false id later = id ∷ later

-- The ids of the pending rows, in the order of the table.
abbrev pub queue_of : List OutboxRow → List ℕ
queue_of [] = []
queue_of (r ∷ rows) = queue_step r.is_sent r.id (queue_of rows)

-- What the query brings is the pending row at the head of the queue, with its payload.
abbrev pub IsFirst : List StoredMeasurement → List ℕ → Option (OutboxRow × List ℕ) → Type 0
IsFirst measurements [] o = o ≡ none
IsFirst measurements (id ∷ later) o =
    (r : OutboxRow) × (p : List ℕ) × (o ≡ some (r, p))
    × (r.id ≡ id)
    × (payload_of r.measurement_id measurements ≡ some p)
    × IsEntry measurements r

abbrev IsAbove : ℕ → Option (OutboxRow × List ℕ) → Type 0
IsAbove low none = Unit
IsAbove low (some (s, q)) = low ≤ s.id

IsAscending-weaken :
    (low high : ℕ) (rows : List OutboxRow)
    → low ≤ high
    → IsAscending high rows
    → IsAscending low rows
IsAscending-weaken low high [] h up = tt
IsAscending-weaken low high (r ∷ rows) h up = (omega arith, up.1)

earlier-IsAbove :
    (low : ℕ) (a b : Option (OutboxRow × List ℕ))
    → IsAbove low a
    → IsAbove low b
    → IsAbove low (earlier a b)
unfolding earlier
earlier-IsAbove low none b h k = k
earlier-IsAbove low (some (r, p)) none h k = h
earlier-IsAbove low (some (r, p)) (some (s, q)) h k =
    if_both (IsAbove low) (ltb s.id r.id) _ _ (λ t. k) (λ t. h)

joined_row-IsAbove :
    (measurements : List StoredMeasurement) (low : ℕ) (r : OutboxRow)
    → low ≤ r.id
    → IsAbove low (joined_row measurements r)
unfolding joined_row
joined_row-IsAbove measurements low r h =
    if_both (IsAbove low) r.is_sent none _ (λ t. tt)
      (λ t. by_payload (payload_of r.measurement_id measurements))
  where
    by_payload :
        (o : Option (List ℕ))
        → IsAbove low
            (elim o as (λ _. Option (OutboxRow × List ℕ)) [ none ↦ none | some p ↦ some (r, p) ])
    by_payload none = tt
    by_payload (some p) = h

select-IsAbove :
    (measurements : List StoredMeasurement) (low : ℕ) (rows : List OutboxRow)
    → IsAscending low rows
    → IsAbove low (select_earliest measurements rows)
unfolding select_earliest
select-IsAbove measurements low [] up = tt
select-IsAbove measurements low (r ∷ rows) (here, up) =
    earlier-IsAbove low (joined_row measurements r) (select_earliest measurements rows)
      (joined_row-IsAbove measurements low r here)
      (select-IsAbove measurements low rows
        (IsAscending-weaken low (suc r.id) rows (omega arith) up))

earlier_first :
    (r : OutboxRow) (p : List ℕ) (o : Option (OutboxRow × List ℕ))
    → IsAbove (suc r.id) o
    → earlier (some (r, p)) o ≡ some (r, p)
unfolding earlier
earlier_first r p none h = refl
earlier_first r p (some (s, q)) h = ground arith

select_step :
    (measurements : List StoredMeasurement) (b : Bool) (r : OutboxRow) (p later : List ℕ)
    (o : Option (OutboxRow × List ℕ))
    → payload_of r.measurement_id measurements ≡ some p
    → IsEntry measurements r
    → IsFirst measurements later o
    → IsAbove (suc r.id) o
    → IsFirst measurements (queue_step b r.id later) (
        earlier
          (if b then none else elim (payload_of r.measurement_id measurements) [
            | none ↦ none
            | some p ↦ some (r, p)
          ])
          o)
select_step measurements true r p later o h entry first above = unfold earlier in first
select_step measurements false r p later o h entry first above =
    rw h (r, p, earlier_first r p o above, refl, h, entry)

-- The query brings the head of the queue.
pub select-IsFirst :
    (measurements : List StoredMeasurement) (low : ℕ) (rows : List OutboxRow)
    → IsAscending low rows
    → All (IsEntry measurements) rows
    → IsFirst measurements (queue_of rows) (select_earliest measurements rows)
unfolding select_earliest joined_row
select-IsFirst measurements low [] up has = refl
select-IsFirst measurements low (r ∷ rows) (here, up) (entry, has) =
    select_step measurements r.is_sent r (entry.0.0) (queue_of rows)
      (select_earliest measurements rows) (entry.0.1) entry
      (select-IsFirst measurements (suc r.id) rows up has)
      (select-IsAbove measurements (suc r.id) rows up)

-- ===== src/Storage/Tables.antt =====
-- The tables of modules/storage/outbox_store.c and what its SQL statements do to them. A table is the
-- list of its rows in the order in which they were inserted. Texts are lists of bytes.
pub mod Pending
pub mod Updates
pub mod Inserts
use edgevision_gateway.Common.{
  ℕ, zero, suc, ◌+◌, Bool, true, false, not, Option, none, some, List, [], ◌∷◌, ◌++◌, ltb, ◌==◌,
  if◌then◌else◌, length,
}
use edgevision_gateway.Common.Int.{ℤ, pos, negsuc}

-- A row of `measurements`.
pub record StoredMeasurement : Type 0 where
  pub id : ℕ
  pub payload_json : List ℕ

-- A row of `outbox`. `is_sent` is the column `state`, which is 'sent' or 'pending'.
pub record OutboxRow : Type 0 where
  pub id : ℕ
  pub measurement_id : ℕ
  pub message_id : List ℕ
  pub topic : List ℕ
  pub is_sent : Bool
  pub attempt_count : ℤ
  pub last_error : Option (List ℕ)
  pub sent_at_ms : Option ℤ

-- `interval_ms` is the column of the one row of `gateway_config`, if it is there.
pub record Database : Type 0 where
  pub measurements : List StoredMeasurement
  pub outbox : List OutboxRow
  pub interval_ms : Option ℤ

abbrev pub plus_one : ℤ → ℤ
plus_one (pos n) = pos (suc n)
plus_one (negsuc zero) = pos 0
plus_one (negsuc (suc n)) = negsuc n

-- UPDATE outbox SET … WHERE id = ?1, and the number of rows that it meets.
unfoldable pub update_where : ℕ → (OutboxRow → OutboxRow) → List OutboxRow → List OutboxRow
update_where id f [] = []
update_where id f (r ∷ rows) = (if r.id == id then f r else r) ∷ update_where id f rows

unfoldable pub count_where : ℕ → List OutboxRow → ℕ
count_where id [] = 0
count_where id (r ∷ rows) = (if r.id == id then 1 else 0) + count_where id rows

-- The SET clause of mark_sent.
unfoldable pub set_sent : ℤ → OutboxRow → OutboxRow
set_sent now r = record r {
  is_sent = true;
  sent_at_ms = if r.is_sent then r.sent_at_ms else some now;
  last_error = if r.is_sent then r.last_error else none;
}

-- The SET clause of record_delivery_failure.
unfoldable pub set_failure : List ℕ → OutboxRow → OutboxRow
set_failure error_text r = record r {
  attempt_count = if r.is_sent then r.attempt_count else plus_one r.attempt_count;
  last_error = if r.is_sent then r.last_error else some error_text;
}

unfoldable pub payload_of : ℕ → List StoredMeasurement → Option (List ℕ)
payload_of id [] = none
payload_of id (m ∷ rows) =
    let later = payload_of id rows in if m.id == id then some m.payload_json else later

-- What the SELECT of read_earliest_pending brings: the smaller of two results of the JOIN, by id.
unfoldable pub earlier :
    Option (OutboxRow × List ℕ) → Option (OutboxRow × List ℕ) → Option (OutboxRow × List ℕ)
earlier none b = b
earlier (some (r, p)) none = some (r, p)
earlier (some (r, p)) (some (s, q)) = if ltb s.id r.id then some (s, q) else some (r, p)

-- The rows of the JOIN that one row of `outbox` makes.
unfoldable pub joined_row : List StoredMeasurement → OutboxRow → Option (OutboxRow × List ℕ)
joined_row measurements r =
    if r.is_sent
    then none
    else elim (payload_of r.measurement_id measurements) [ none ↦ none | some p ↦ some (r, p) ]

unfoldable pub select_earliest :
    List StoredMeasurement → List OutboxRow → Option (OutboxRow × List ℕ)
select_earliest measurements [] = none
select_earliest measurements (r ∷ rows) =
    earlier (joined_row measurements r) (select_earliest measurements rows)

-- SELECT COUNT(*) FROM outbox WHERE state = …
pub count_state : Bool → List OutboxRow → ℕ
count_state true [] = 0
count_state false [] = 0
count_state true (r ∷ rows) = (if r.is_sent then 1 else 0) + count_state true rows
count_state false (r ∷ rows) = (if r.is_sent then 0 else 1) + count_state false rows

-- ===== src/Storage/Tables/Inserts.antt =====
-- What the INSERT statements of modules/storage/outbox_store.c keep of the tables.
use edgevision_gateway.Common.{
  ℕ, suc, ◌≤◌, ◌<◌, ◌≡◌, refl, Bool, true, false, Option, none, some, List, [], ◌∷◌, ◌++◌, length,
  ◌==◌, ==_refl, if◌then◌else◌, All, All-append,
}
use edgevision_gateway.Common.Int.{pos}
use edgevision_gateway.Storage.Tables.{StoredMeasurement, OutboxRow, payload_of}
use edgevision_gateway.Storage.Tables.Pending.{IsAscending, IsEntry}

payload_step :
    (b : Bool) (json p : List ℕ) (o later : Option (List ℕ))
    → (if b then some json else o) ≡ some p
    → (o ≡ some p → later ≡ some p)
    → (if b then some json else later) ≡ some p
payload_step true json p o later h keep = h
payload_step false json p o later h keep = keep h

-- A row that is appended hides no other one.
payload_of-append :
    (id : ℕ) (rows more : List StoredMeasurement) (p : List ℕ)
    → payload_of id rows ≡ some p
    → payload_of id (rows ++ more) ≡ some p
unfolding payload_of
payload_of-append id [] more p h = absurd cc
payload_of-append id (m ∷ rows) more p h =
    payload_step (m.id == id) m.payload_json p (payload_of id rows) (payload_of id (rows ++ more)) h
      (payload_of-append id rows more p)

-- A row with a new id is found behind the others.
pub payload_of-new :
    (rows : List StoredMeasurement) (m : StoredMeasurement)
    → payload_of m.id rows ≡ none
    → payload_of m.id (rows ++ m ∷ []) ≡ some m.payload_json
unfolding payload_of
payload_of-new [] m h = rw (==_refl m.id) refl
payload_of-new (s ∷ rows) m h = step (s.id == m.id) (payload_of m.id rows) h (payload_of-new rows m)
  where
    step :
        (b : Bool) (o : Option (List ℕ))
        → (if b then some s.payload_json else o) ≡ none
        → (o ≡ none → payload_of m.id (rows ++ m ∷ []) ≡ some m.payload_json)
        → (if b then some s.payload_json else payload_of m.id (rows ++ m ∷ []))
          ≡ some m.payload_json
    step true o h later = absurd cc
    step false o h later = later h

IsEntry-append :
    (measurements more : List StoredMeasurement) (rows : List OutboxRow)
    → All (IsEntry measurements) rows
    → All (IsEntry (measurements ++ more)) rows
IsEntry-append measurements more [] h = tt
IsEntry-append measurements more (r ∷ rows) (((p, found), count, long), later) = (
  ((p, payload_of-append r.measurement_id measurements more p found), count, long),
  IsEntry-append measurements more rows later,
)

-- The entries behind a save: the old ones, and the one whose measurement is the new row.
pub entries-append :
    (measurements : List StoredMeasurement) (m : StoredMeasurement) (rows : List OutboxRow)
    (r : OutboxRow) (n : ℕ)
    → All (IsEntry measurements) rows
    → payload_of m.id measurements ≡ none
    → r.measurement_id ≡ m.id
    → r.attempt_count ≡ pos n
    → length r.message_id ≡ 32
    → All (IsEntry (measurements ++ m ∷ [])) (rows ++ r ∷ [])
entries-append measurements m rows r n entries fresh at count long =
    All-append (IsEntry (measurements ++ m ∷ [])) rows (r ∷ [])
      (IsEntry-append measurements (m ∷ []) rows entries)
      (((m.payload_json, rw at (payload_of-new measurements m fresh)), (n, count), long), tt)

pub IsAscending-append :
    (low : ℕ) (rows : List OutboxRow) (r : OutboxRow)
    → IsAscending low rows
    → low ≤ r.id
    → All (λ (s : OutboxRow). s.id < r.id) rows
    → IsAscending low (rows ++ r ∷ [])
IsAscending-append low [] r up here below = (here, tt)
IsAscending-append low (s ∷ rows) r (at, up) here (first, below) =
    (at, IsAscending-append (suc s.id) rows r up first below)

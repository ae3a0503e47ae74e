-- ===== src/Storage/Outbox/Steps.antt =====
-- What one save or one UPDATE of modules/storage/outbox_store.c does to the invariant of the tables and
-- to the queue of pending entries.
use edgevision_gateway.Common.{
  Bool, true, false, ℕ, ◌+◌, ◌<◌, ◌≡◌, ◌≢◌, ◌⊎◌, inl, inr, refl, sym, ◌∙◌, arith, Option, none,
  some, List, [], ◌∷◌, ◌++◌, length, length-append, ◌==◌, ◌!=◌, if◌then◌else◌, if_both, All,
}
use edgevision_gateway.Common.Int.{ℤ}
use edgevision_gateway.Storage.Result.{
  StoreResult, ok, empty, not_found, invalid_argument, busy, db_error, schema_error,
  serialization_error, no_memory, sqlite_ok, sqlite_done, map_sqlite_result, Stmt, unbound,
  after_finalize,
}
use edgevision_gateway.Storage.Result.Errors.{IsError, unbound-IsError}
use edgevision_gateway.Storage.Tables.{
  OutboxRow, Database, update_where, count_where, set_sent, payload_of,
}
use edgevision_gateway.Storage.Tables.Pending.{IsEntry, queue_step, queue_of}
use edgevision_gateway.Storage.Tables.Updates.{
  update_where-IsAscending, update_where-All, length-update_where, queue-append,
}
use edgevision_gateway.Storage.Tables.Inserts.{entries-append, IsAscending-append}
use edgevision_gateway.Storage.Outbox.{
  SaveAnswers, with_measurement, with_entry, counted, update_entry, outbox_store_mark_sent,
}
use edgevision_gateway.Storage.Outbox.Reads.{IsValid}

-- An UPDATE has changed its rows, or it reports that it has not.
abbrev pub IsUpdated : ℕ → (OutboxRow → OutboxRow) → Database → StoreResult × Database → Type 0
IsUpdated id f before (r, after) =
    (after ≡ record before { outbox = update_where id f before.outbox })
    ⊎ ((after ≡ before) × (r ≢ ok))

counted-error : (r : StoreResult) → counted r 0 ≢ ok
unfolding counted
counted-error ok = λ e. absurd cc
counted-error empty = λ e. absurd cc
counted-error not_found = λ e. absurd cc
counted-error invalid_argument = λ e. absurd cc
counted-error busy = λ e. absurd cc
counted-error db_error = λ e. absurd cc
counted-error schema_error = λ e. absurd cc
counted-error serialization_error = λ e. absurd cc
counted-error no_memory = λ e. absurd cc

pub update_entry-IsUpdated :
    (s : Stmt) (id : ℕ) (f : OutboxRow → OutboxRow) (db : Database)
    → IsUpdated id f db (update_entry s id f db)
unfolding update_entry
update_entry-IsUpdated s id f db = behind (unbound s) (unbound-IsError s)
  where
    behind :
        (u : Option StoreResult)
        → IsError u
        → IsUpdated id f db (elim u [
          | some r ↦ (r, db)
          | none ↦
              if s.step != sqlite_done
              then (counted (after_finalize s.finalize (map_sqlite_result s.step)) 0, db)
              else (
                counted (after_finalize s.finalize ok) (count_where id db.outbox),
                record db { outbox = update_where id f db.outbox },
              )
        ])
    behind (some r) bad = inr (refl, bad)
    behind none bad =
        if_both (IsUpdated id f db) (s.step != sqlite_done) _ _
          (λ h. inr (refl, counted-error (after_finalize s.finalize (map_sqlite_result s.step))))
          (λ h. inl refl)

pub update-IsValid :
    (id : ℕ) (f : OutboxRow → OutboxRow) (db : Database)
    → ((r : OutboxRow) → (f r).id ≡ r.id)
    → ((r : OutboxRow) → IsEntry db.measurements r → IsEntry db.measurements (f r))
    → IsValid db
    → IsValid (record db { outbox = update_where id f db.outbox })
update-IsValid id f db keeps_id keeps_entry v = record {
  ascending = update_where-IsAscending id f keeps_id 0 db.outbox v.ascending;
  entries = update_where-All id f (IsEntry db.measurements) db.outbox keeps_entry v.entries;
  paired = v.paired ∙ sym (length-update_where id f db.outbox);
}

-- The row ids that SQLite gives are new, the one in the outbox above all others, and the random
-- message id has its 32 digits.
pub record IsFresh (a : SaveAnswers) (db : Database) : Type 0 where
  pub new_measurement : payload_of a.measurement_id db.measurements ≡ none
  pub new_entry : All (λ (r : OutboxRow). r.id < a.outbox_id) db.outbox
  pub digits : length a.message_id ≡ 32

-- sqlite3_step never returns SQLITE_OK.
abbrev pub IsStepped : SaveAnswers → Type 0
IsStepped a = (a.insert_measurement.step ≢ sqlite_ok) × (a.insert_outbox.step ≢ sqlite_ok)

pub save-IsValid :
    (a : SaveAnswers) (topic bytes : List ℕ) (db : Database)
    → IsFresh a db
    → IsValid db
    → IsValid (with_entry a topic (with_measurement a bytes db))
save-IsValid a topic bytes db fresh v = record {
  ascending = IsAscending-append 0 db.outbox _ v.ascending (omega arith) fresh.new_entry;
  entries =
      entries-append db.measurements _ db.outbox _ 0 v.entries fresh.new_measurement refl refl
        fresh.digits;
  paired = omega (arith, length-append db.measurements, length-append db.outbox, v.paired);
}

pub queue_with_entry :
    (a : SaveAnswers) (topic bytes : List ℕ) (db : Database)
    → queue_of (with_entry a topic (with_measurement a bytes db)).outbox
      ≡ queue_of db.outbox ++ a.outbox_id ∷ []
queue_with_entry a topic bytes db = queue-append db.outbox _ refl

-- sqlite3_step never returns SQLITE_OK, and sqlite3_finalize no error that the step did not return.
pub record IsQuiet (s : Stmt) : Type 0 where
  pub stepped : s.step ≢ sqlite_ok
  pub finalized : s.step ≡ sqlite_done → s.finalize ≡ sqlite_ok

some_row :
    (id : ℕ) (rows : List OutboxRow) (later : List ℕ)
    → queue_of rows ≡ id ∷ later
    → (count_where id rows == 0) ≡ false
unfolding count_where
some_row id [] later h = absurd cc
some_row id (r ∷ rows) later h = step r.is_sent h (some_row id rows later)
  where
    step :
        (b : Bool)
        → queue_step b r.id (queue_of rows) ≡ id ∷ later
        → (queue_of rows ≡ id ∷ later → (count_where id rows == 0) ≡ false)
        → ((if r.id == id then 1 else 0) + count_where id rows == 0) ≡ false
    step true e rest = let more = rest e in ground (arith, more)
    step false e rest = let same : r.id ≡ id = cc in ground (arith, same)

-- Of an entry that is pending: the UPDATE succeeds and has changed it, or fails and has not.
abbrev pub IsExactUpdate : ℕ → (OutboxRow → OutboxRow) → Database → StoreResult × Database → Type 0
IsExactUpdate id f before (r, after) =
    ((r ≡ ok) × (after ≡ record before { outbox = update_where id f before.outbox }))
    ⊎ ((r ≢ ok) × (after ≡ before))

update_entry-IsExactUpdate :
    (s : Stmt) (id : ℕ) (f : OutboxRow → OutboxRow) (db : Database) (later : List ℕ)
    → IsQuiet s
    → queue_of db.outbox ≡ id ∷ later
    → IsExactUpdate id f db (update_entry s id f db)
unfolding update_entry after_finalize counted
update_entry-IsExactUpdate s id f db later quiet at = behind (unbound s) (unbound-IsError s)
  where
    behind :
        (u : Option StoreResult)
        → IsError u
        → IsExactUpdate id f db (elim u [
          | some r ↦ (r, db)
          | none ↦
              if s.step != sqlite_done
              then (counted (after_finalize s.finalize (map_sqlite_result s.step)) 0, db)
              else (
                counted (after_finalize s.finalize ok) (count_where id db.outbox),
                record db { outbox = update_where id f db.outbox },
              )
        ])
    behind (some r) bad = inr (bad, refl)
    behind none bad =
        if_both (IsExactUpdate id f db) (s.step != sqlite_done) _ _
          (λ h. inr (counted-error (after_finalize s.finalize (map_sqlite_result s.step)), refl))
          (λ h.
            let fine = quiet.finalized (ground (arith, h)) in
            inl (rw (fine, some_row id db.outbox later at) refl, refl))

pub mark_sent-IsExactUpdate :
    (s : Stmt) (id : ℕ) (now : ℤ) (db : Database) (later : List ℕ)
    → IsQuiet s
    → queue_of db.outbox ≡ id ∷ later
    → IsExactUpdate id (set_sent now) db (outbox_store_mark_sent true s id now db)
unfolding outbox_store_mark_sent
mark_sent-IsExactUpdate s id now db later quiet at =
    update_entry-IsExactUpdate s id (set_sent now) db later quiet at

-- No call of an UPDATE fails.
abbrev pub IsFineStmt : Stmt → Type 0
IsFineStmt s =
    (s.prepare ≡ sqlite_ok)
    × (s.bind_first ≡ sqlite_ok)
    × (s.bind_second ≡ sqlite_ok)
    × (s.step ≡ sqlite_done)
    × (s.finalize ≡ sqlite_ok)

-- Then an entry that is pending is marked.
pub mark_sent_fine :
    (s : Stmt) (id : ℕ) (now : ℤ) (db : Database) (later : List ℕ)
    → IsFineStmt s
    → queue_of db.outbox ≡ id ∷ later
    → outbox_store_mark_sent true s id now db
      ≡ (ok, record db { outbox = update_where id (set_sent now) db.outbox })
unfolding outbox_store_mark_sent update_entry unbound after_finalize counted
mark_sent_fine s id now db later (p, b, c, e, f) at =
    rw (p, b, c, e, f, some_row id db.outbox later at) refl

-- ===== src/Storage/Outbox.antt =====
-- The operations of modules/storage/outbox_store.c on an open database: saving a measurement with its
-- outbox entry, reading the earliest pending one, marking, statistics, and the interval. `has_store`
-- says that the pointers to the store and its database are there.
pub mod Atomic
pub mod Reads
pub mod Counts
pub mod Steps
pub mod History
pub mod Interval
pub mod Payload
pub mod Tests
use edgevision_gateway.Common.{
  ℕ, zero, suc, ◌+◌, Bool, true, false, not, ◌||◌, Option, none, some, List, [], ◌∷◌, ◌++◌, ltb,
  length, ◌==◌, ◌!=◌, if◌then◌else◌,
}
use edgevision_gateway.Common.Int.{ℤ, pos, negsuc, ltb_ℤ}
use edgevision_gateway.Storage.Result.{
  StoreResult, ok, empty, not_found, invalid_argument, busy, db_error, schema_error,
  serialization_error, no_memory, sqlite_ok, sqlite_nomem, sqlite_done, map_sqlite_result, Stmt,
  unbound, Query, after_finalize, after_finalize_empty,
}
use edgevision_gateway.Storage.Tables.{
  StoredMeasurement, OutboxRow, Database, update_where, count_where, set_sent, set_failure,
  select_earliest, count_state,
}

-- measurement_to_json: the text, MEASUREMENT_JSON_ALLOCATION_ERROR or another failure.
pub data Json : Type 0 where
  text : List ℕ → Json
  allocation_error json_failure : Json

-- prepare_save_payload, on the measurement if it is there. `to_json` is measurement_to_json.
unfoldable pub prepare_save_payload :
    {A : Type 0} → (A → Json) → Bool → Option A → List ℕ → StoreResult × Option (List ℕ)
prepare_save_payload to_json has_store none topic = (invalid_argument, none)
prepare_save_payload to_json has_store (some m) topic =
    if not has_store || (length topic == 0) then (invalid_argument, none) else elim (to_json m) [
      | text json ↦ (ok, some json)
      | allocation_error ↦ (no_memory, none)
      | json_failure ↦ (serialization_error, none)
    ]

-- The connection behind a call: the committed database, and, if a transaction is still open, what
-- it would make of it.
pub data Connection : Type 0 where
  idle : Database → Connection
  in_transaction : Database → Database → Connection

-- The answers of SQLite to a save: the two row ids that it gives, and the 32 hexadecimal digits of its
-- random blob, beside the return codes.
pub record SaveAnswers : Type 0 where
  pub begin_rc : ℕ
  pub insert_measurement : Stmt
  pub measurement_id : ℕ
  pub insert_outbox : Stmt
  pub outbox_id : ℕ
  pub message_id : List ℕ
  pub commit_rc : ℕ
  pub rollback_rc : ℕ

-- The way of an INSERT: `some r` goes to the cleanup with the result r.
unfoldable pub insert_fails : Stmt → Option StoreResult
insert_fails s = elim (unbound s) [
  | some r ↦ some r
  | none ↦
      if s.step != sqlite_done
      then some (map_sqlite_result s.step)
      else if s.finalize != sqlite_ok
      then some (map_sqlite_result s.finalize)
      else none
]

-- The cleanup of an open transaction.
pub rolled_back : ℕ → Database → Database → StoreResult → StoreResult × Connection
rolled_back rollback_rc before working result =
    (result, if rollback_rc == sqlite_ok then idle before else in_transaction before working)

abbrev pub with_measurement : SaveAnswers → List ℕ → Database → Database
with_measurement a json db = record db {
  measurements = db.measurements ++ record { id = a.measurement_id; payload_json = json } ∷ [];
}

abbrev pub with_entry : SaveAnswers → List ℕ → Database → Database
with_entry a topic db = record db {
  outbox =
      db.outbox
      ++ record {
        id = a.outbox_id;
        measurement_id = a.measurement_id;
        message_id = a.message_id;
        topic = topic;
        is_sent = false;
        attempt_count = pos 0;
        last_error = none;
        sent_at_ms = none;
      }
        ∷ [];
}

-- COMMIT.
unfoldable pub save_commit : SaveAnswers → Database → Database → StoreResult × Connection
save_commit a before working =
    if a.commit_rc != sqlite_ok
    then rolled_back a.rollback_rc before working (map_sqlite_result a.commit_rc)
    else (ok, idle working)

-- The second INSERT, on the way of its statement.
unfoldable pub save_entry :
    SaveAnswers → List ℕ → Database → Database → Option StoreResult → StoreResult × Connection
save_entry a topic before working (some r) = rolled_back a.rollback_rc before working r
save_entry a topic before working none = save_commit a before (with_entry a topic working)

-- The first INSERT.
unfoldable pub save_rows :
    SaveAnswers → List ℕ → List ℕ → Database → Option StoreResult → StoreResult × Connection
save_rows a json topic before (some r) = rolled_back a.rollback_rc before before r
save_rows a json topic before none =
    save_entry a topic before (with_measurement a json before) (insert_fails a.insert_outbox)

-- BEGIN IMMEDIATE and what follows, on the result of prepare_save_payload, which brings a text
-- exactly when it is OUTBOX_STORE_OK.
unfoldable pub save_payload :
    SaveAnswers → List ℕ → Database → StoreResult × Option (List ℕ) → StoreResult × Connection
save_payload a topic db (result, none) = (result, idle db)
save_payload a topic db (result, some json) =
    if a.begin_rc != sqlite_ok
    then (map_sqlite_result a.begin_rc, idle db)
    else save_rows a json topic db (insert_fails a.insert_measurement)

unfoldable pub outbox_store_save_measurement :
    {A : Type 0}
    → (A → Json)
    → Bool
    → Option A
    → List ℕ
    → SaveAnswers
    → Database
    → StoreResult × Connection
outbox_store_save_measurement to_json has_store m topic a db =
    save_payload a topic db (prepare_save_payload to_json has_store m topic)

-- outbox_item_t.
pub record OutboxItem : Type 0 where
  pub id : ℕ
  pub measurement_id : ℕ
  pub attempt_count : ℕ
  pub message_id : List ℕ
  pub topic : List ℕ
  pub payload_json : List ℕ

-- How the columns of the row are copied: whether sqlite3_column_text gives no message id, with which
-- sqlite3_errcode it gives no topic or payload, if so, and whether the two calls of malloc succeed.
pub record CopyAnswers : Type 0 where
  pub message_id_null : Bool
  pub topic_null : Option ℕ
  pub topic_malloc : Bool
  pub payload_null : Option ℕ
  pub payload_malloc : Bool

-- A column that sqlite3_column_text does not give, or that malloc has no room for.
unfoldable pub copy_fails : Option ℕ → Bool → Option StoreResult
copy_fails (some errcode) room = some (if errcode == sqlite_nomem then no_memory else db_error)
copy_fails none room = if room then none else some no_memory

-- The copy of a row, with the result where it fails.
unfoldable pub copy_texts :
    OutboxItem → Option StoreResult → Option StoreResult → StoreResult × Option OutboxItem
copy_texts item (some r) payload = (r, none)
copy_texts item none (some r) = (r, none)
copy_texts item none none = (ok, some item)

unfoldable pub copy_count : CopyAnswers → OutboxRow → List ℕ → ℤ → StoreResult × Option OutboxItem
copy_count a r payload_json (negsuc n) = (db_error, none)
copy_count a r payload_json (pos attempt_count) =
    if a.message_id_null || (length r.message_id != 32)
    then (db_error, none)
    else copy_texts
        (record {
          id = r.id;
          measurement_id = r.measurement_id;
          attempt_count = attempt_count;
          message_id = r.message_id;
          topic = r.topic;
          payload_json = payload_json;
        })
        (copy_fails a.topic_null a.topic_malloc) (copy_fails a.payload_null a.payload_malloc)

-- The outcome of the step: an error, or a row or none.
unfoldable pub read_row :
    CopyAnswers → Option ℕ → Option (OutboxRow × List ℕ) → StoreResult × Option OutboxItem
read_row a (some rc) row = (map_sqlite_result rc, none)
read_row a none none = (empty, none)
read_row a none (some (r, payload_json)) = copy_count a r payload_json r.attempt_count

-- sqlite3_finalize, which can take a result back.
unfoldable pub read_finalized :
    ℕ → StoreResult × Option OutboxItem → StoreResult × Option OutboxItem
read_finalized rc (result, some item) =
    if rc != sqlite_ok then (map_sqlite_result rc, none) else (result, some item)
read_finalized rc (result, none) = (after_finalize_empty rc result, none)

-- The item is `none` where `out_item` is left zero.
unfoldable pub outbox_store_read_earliest_pending :
    Bool → Query → CopyAnswers → Database → StoreResult × Option OutboxItem
outbox_store_read_earliest_pending has_store s a db =
    if not has_store
    then (invalid_argument, none)
    else if s.prepare != sqlite_ok
    then (map_sqlite_result s.prepare, none)
    else read_finalized s.finalize
        (read_row a s.step_error (select_earliest db.measurements db.outbox))

-- An UPDATE by id behind its cleanup, with the number of rows that it met.
unfoldable pub counted : StoreResult → ℕ → StoreResult
counted ok affected_rows = if affected_rows == 0 then not_found else ok
counted result affected_rows = result

-- The UPDATE of one row: `f` is its SET clause.
unfoldable pub update_entry : Stmt → ℕ → (OutboxRow → OutboxRow) → Database → StoreResult × Database
update_entry s id f db = elim (unbound s) [
  | some r ↦ (r, db)
  | none ↦
      if s.step != sqlite_done
      then (counted (after_finalize s.finalize (map_sqlite_result s.step)) 0, db)
      else (
        counted (after_finalize s.finalize ok) (count_where id db.outbox),
        record db { outbox = update_where id f db.outbox },
      )
]

unfoldable pub outbox_store_mark_sent : Bool → Stmt → ℕ → ℤ → Database → StoreResult × Database
outbox_store_mark_sent has_store s outbox_id sent_at_ms db =
    if not has_store
    then (invalid_argument, db)
    else update_entry s outbox_id (set_sent sent_at_ms) db

-- `error_text` is empty for a null pointer, too.
unfoldable pub outbox_store_record_delivery_failure :
    Bool → Stmt → ℕ → List ℕ → Database → StoreResult × Database
outbox_store_record_delivery_failure has_store s outbox_id error_text db =
    if not has_store || (length error_text == 0)
    then (invalid_argument, db)
    else update_entry s outbox_id (set_failure error_text) db

-- outbox_store_stats_t.
pub record Stats : Type 0 where
  pub measurement_total : ℕ
  pub pending_count : ℕ
  pub sent_count : ℕ

abbrev pub zero_stats : Stats
zero_stats = record { measurement_total = 0; pending_count = 0; sent_count = 0 }

pub with_stats : StoreResult → Stats → StoreResult × Stats
with_stats ok stats = (ok, stats)
with_stats result stats = (result, zero_stats)

-- COUNT(*) is never negative and always brings a row.
pub outbox_store_get_stats : Bool → Query → Database → StoreResult × Stats
outbox_store_get_stats has_store s db =
    if not has_store
    then (invalid_argument, zero_stats)
    else if s.prepare != sqlite_ok
    then (map_sqlite_result s.prepare, zero_stats)
    else elim s.step_error [
      | some rc ↦ (after_finalize s.finalize (map_sqlite_result rc), zero_stats)
      | none ↦ with_stats (after_finalize s.finalize ok) (record {
        measurement_total = length db.measurements;
        pending_count = count_state false db.outbox;
        sent_count = count_state true db.outbox;
      })
    ]

abbrev pub in_range : ℤ → Bool
in_range ms = not (ltb_ℤ ms (pos 100) || ltb_ℤ (pos 60000) ms)

-- INSERT … ON CONFLICT DO UPDATE on the one row of gateway_config.
pub outbox_store_save_interval : Bool → Stmt → ℤ → Database → StoreResult × Database
outbox_store_save_interval has_store s interval_ms db =
    if not has_store || not (in_range interval_ms)
    then (invalid_argument, db)
    else elim (unbound s) [
      | some r ↦ (r, db)
      | none ↦
          if s.step != sqlite_done
          then (after_finalize s.finalize (map_sqlite_result s.step), db)
          else (after_finalize s.finalize ok, record db { interval_ms = some interval_ms })
    ]

-- The row of gateway_config, if there is one, as the step brings it, with the value that is read.
pub load_row : Option ℕ → Bool → Option ℤ → StoreResult × Option ℤ
load_row (some rc) is_integer row = (map_sqlite_result rc, none)
load_row none is_integer none = (empty, none)
load_row none is_integer (some value) =
    if not is_integer
    then (schema_error, none)
    else if in_range value
    then (ok, some value)
    else (schema_error, none)

pub load_finalized : ℕ → StoreResult × Option ℤ → StoreResult × Option ℤ
load_finalized rc (ok, value) =
    if rc != sqlite_ok then (map_sqlite_result rc, none) else (ok, value)
load_finalized rc (result, value) = (after_finalize_empty rc result, none)

-- `is_integer` says that the column has the type SQLITE_INTEGER; what comes out beside the result is
-- written to `out_interval_ms`, if anything.
pub outbox_store_load_interval : Bool → Query → Bool → Database → StoreResult × Option ℤ
outbox_store_load_interval has_store s is_integer db =
    if not has_store
    then (invalid_argument, none)
    else if s.prepare != sqlite_ok
    then (map_sqlite_result s.prepare, none)
    else load_finalized s.finalize (load_row s.step_error is_integer db.interval_ms)

-- ===== src/Storage/Schema.antt =====
-- Opening the store in modules/storage/outbox_store.c: the checks of the connection, the creation of the
-- schema, the migrations from the older versions, and the check of the tables.
pub mod Versions
pub mod Layout
mod Tests
use edgevision_gateway.Common.{
  ℕ, Bool, true, false, not, ◌||◌, Option, none, some, List, [], ◌∷◌, length, ◌==◌, ◌!=◌,
  if◌then◌else◌,
}
use edgevision_gateway.Common.Int.{ℤ, pos, ltb_ℤ}
use edgevision_gateway.Storage.Result.{
  StoreResult, ok, empty, not_found, invalid_argument, busy, db_error, schema_error,
  serialization_error, no_memory, sqlite_ok, map_sqlite_result, Query,
}

-- What the SQL scripts build: user_version, the tables, and of the table `outbox` the three columns
-- for attempts, errors and the time of sending, the column message_id, and the index.
pub record Schema : Type 0 where
  pub user_version : ℤ
  pub measurements : Bool
  pub outbox : Bool
  pub delivery_columns : Bool
  pub message_ids : Bool
  pub index : Bool
  pub gateway_config : Bool

-- The answers to PRAGMA foreign_keys: `step_error` is a return of the step but SQLITE_ROW, and
-- `value` the column.
pub record ForeignKeys : Type 0 where
  pub exec : ℕ
  pub query : Query
  pub value : ℤ

pub outbox_store_enable_and_check_foreign_keys : ForeignKeys → StoreResult
outbox_store_enable_and_check_foreign_keys a =
    if a.exec != sqlite_ok
    then map_sqlite_result a.exec
    else if a.query.prepare != sqlite_ok
    then map_sqlite_result a.query.prepare
    else elim a.query.step_error [
      | some rc ↦ map_sqlite_result rc
      | none ↦
          if a.query.finalize != sqlite_ok
          then map_sqlite_result a.query.finalize
          else elim a.value [ pos value ↦ if value != 1 then db_error else ok | _ ↦ db_error ]
    ]

-- The answers to PRAGMA journal_mode = WAL: `mode` is the text, if any, as whether it reads "wal".
pub record Journal : Type 0 where
  pub query : Query
  pub mode : Option Bool

pub outbox_store_set_journal_mode_wal : Journal → StoreResult
outbox_store_set_journal_mode_wal a =
    if a.query.prepare != sqlite_ok
    then map_sqlite_result a.query.prepare
    else elim a.query.step_error [
      | some rc ↦ map_sqlite_result rc
      | none ↦ elim a.mode [
        | none ↦ db_error
        | some is_wal ↦
            if a.query.finalize != sqlite_ok
            then map_sqlite_result a.query.finalize
            else if is_wal
            then ok
            else db_error
      ]
    ]

-- The result, and what is written to `out_version`.
pub outbox_store_read_user_version : Query → Schema → StoreResult × ℤ
outbox_store_read_user_version q s =
    if q.prepare != sqlite_ok then (map_sqlite_result q.prepare, pos 0) else elim q.step_error [
      | some rc ↦ (map_sqlite_result rc, pos 0)
      | none ↦
          if q.finalize != sqlite_ok
          then (map_sqlite_result q.finalize, pos 0)
          else (ok, s.user_version)
    ]

-- The result of a script that failed.
pub script_error : StoreResult → StoreResult
script_error busy = busy
script_error no_memory = no_memory
script_error result = schema_error

-- A script from BEGIN to COMMIT, or to the ROLLBACK behind its failure.
pub run_script : (Schema → Schema) → ℕ → Schema → StoreResult × Schema
run_script effect rc s =
    if rc == sqlite_ok then (ok, effect s) else (script_error (map_sqlite_result rc), s)

pub outbox_store_create_schema : ℕ → Schema → StoreResult × Schema
outbox_store_create_schema = run_script (λ s. record {
  user_version = pos 4;
  measurements = true;
  outbox = true;
  delivery_columns = true;
  message_ids = true;
  index = true;
  gateway_config = true;
})

pub outbox_store_migrate_v1_to_v2 : ℕ → Schema → StoreResult × Schema
outbox_store_migrate_v1_to_v2 =
    run_script (λ s. record s { user_version = pos 2; delivery_columns = true; index = true })

-- The new table replaces the old one, with all of its columns and the index.
pub outbox_store_migrate_v2_to_v3 : ℕ → Schema → StoreResult × Schema
outbox_store_migrate_v2_to_v3 = run_script (λ s. record s {
  user_version = pos 3;
  outbox = true;
  delivery_columns = true;
  message_ids = true;
  index = true;
})

pub outbox_store_migrate_v3_to_v4 : ℕ → Schema → StoreResult × Schema
outbox_store_migrate_v3_to_v4 =
    run_script (λ s. record s { user_version = pos 4; gateway_config = true })

-- The answers to the query for a table; `step_error` is neither SQLITE_ROW nor SQLITE_DONE.
pub record TableQuery : Type 0 where
  pub prepare : ℕ
  pub bind : ℕ
  pub step_error : Option ℕ
  pub finalize : ℕ

-- Behind the step, with whether there is such a table: `out_exists` is written on success only.
pub exists_finalized : ℕ → Bool → StoreResult → StoreResult × Option Bool
exists_finalized finalize exists ok =
    if finalize == sqlite_ok then (ok, some exists) else (map_sqlite_result finalize, none)
exists_finalized finalize exists result = (result, none)

pub outbox_store_table_exists : TableQuery → Bool → StoreResult × Option Bool
outbox_store_table_exists q exists =
    if q.prepare != sqlite_ok
    then (map_sqlite_result q.prepare, none)
    else if q.bind != sqlite_ok
    then (map_sqlite_result q.bind, none)
    else elim q.step_error [
      | some rc ↦ exists_finalized q.finalize false (map_sqlite_result rc)
      | none ↦ exists_finalized q.finalize exists ok
    ]

-- One table of verify_current_schema, and `next` behind it.
pub required : StoreResult → StoreResult × Option Bool → StoreResult
required next (ok, some true) = next
required next (ok, exists) = schema_error
required next (result, exists) = result

-- The answers for the three tables.
pub record TableQueries : Type 0 where
  pub for_measurements : TableQuery
  pub for_outbox : TableQuery
  pub for_config : TableQuery

pub verify_current_schema : TableQueries → Schema → StoreResult
verify_current_schema q s =
    required
      (required (required ok (outbox_store_table_exists q.for_config s.gateway_config))
        (outbox_store_table_exists q.for_outbox s.outbox))
      (outbox_store_table_exists q.for_measurements s.measurements)

-- The answers to a script and to the read of user_version behind it.
pub record Script : Type 0 where
  pub exec : ℕ
  pub read : Query

-- Where the opening stands: the result so far, `version`, and the schema.
abbrev pub Progress : Type 0
Progress = StoreResult × ℤ × Schema

-- The read of user_version behind a script.
pub reread : Query → StoreResult × Schema → Progress
reread q (ok, s) =
    ((outbox_store_read_user_version q s).0, (outbox_store_read_user_version q s).1, s)
reread q (result, s) = (result, pos 0, s)

-- A script that runs at one version.
pub at_version : ℕ → (ℕ → Schema → StoreResult × Schema) → Script → Progress → Progress
at_version number script a (ok, pos version, s) =
    if version == number then reread a.read (script a.exec s) else (ok, pos version, s)
at_version number script a (result, version, s) = (result, version, s)

pub record OpenAnswers : Type 0 where
  pub has_memory : Bool
  pub open_rc : ℕ
  pub busy_timeout_rc : ℕ
  pub foreign_keys : ForeignKeys
  pub journal : Journal
  pub read : Query
  pub create : Script
  pub migrate_v1 : Script
  pub migrate_v2 : Script
  pub migrate_v3 : Script
  pub tables : TableQueries

-- What outbox_store_open leaves: its result, whether the connection is open, and whether it has
-- written a store to `out_store`.
pub record Opened : Type 0 where
  pub result : StoreResult
  pub is_connected : Bool
  pub has_store : Bool
  pub schema : Schema

-- sqlite3_close, free and the return of an error.
pub give_up : StoreResult → Schema → Opened
give_up result s = record { result = result; is_connected = false; has_store = false; schema = s }

pub verified : Schema → StoreResult → Opened
verified s ok = record { result = ok; is_connected = true; has_store = true; schema = s }
verified s result = give_up result s

-- Behind the migrations.
pub migrated : OpenAnswers → Progress → Opened
migrated a (ok, pos version, s) =
    if version != 4 then give_up schema_error s else verified s (verify_current_schema a.tables s)
migrated a (ok, version, s) = give_up schema_error s
migrated a (result, version, s) = give_up result s

-- Behind the first read of user_version.
pub versioned : OpenAnswers → Schema → StoreResult × ℤ → Opened
versioned a s (ok, version) =
    if ltb_ℤ version (pos 0) || ltb_ℤ (pos 4) version
    then give_up schema_error s
    else migrated a (
        at_version 3 outbox_store_migrate_v3_to_v4 a.migrate_v3 (
          at_version 2 outbox_store_migrate_v2_to_v3 a.migrate_v2 (
            at_version 1 outbox_store_migrate_v1_to_v2 a.migrate_v1
              (at_version 0 outbox_store_create_schema a.create (ok, version, s)))))
versioned a s (result, version) = give_up result s

pub journaled : OpenAnswers → Schema → StoreResult → Opened
journaled a s ok = versioned a s (outbox_store_read_user_version a.read s)
journaled a s result = give_up result s

pub keyed : OpenAnswers → Schema → StoreResult → Opened
keyed a s ok = journaled a s (outbox_store_set_journal_mode_wal a.journal)
keyed a s result = give_up result s

-- outbox_store_open with a pointer for the store, on the path and the timeout of a configuration that is
-- there.
pub outbox_store_open : List ℕ → ℤ → OpenAnswers → Schema → Opened
outbox_store_open db_path busy_timeout_ms a s =
    if (length db_path == 0) || ltb_ℤ busy_timeout_ms (pos 0)
    then give_up invalid_argument s
    else if not a.has_memory
    then give_up no_memory s
    else if a.open_rc != sqlite_ok
    then give_up (map_sqlite_result a.open_rc) s
    else if a.busy_timeout_rc != sqlite_ok
    then give_up (map_sqlite_result a.busy_timeout_rc) s
    else keyed a s (outbox_store_enable_and_check_foreign_keys a.foreign_keys)

-- outbox_store_close on a store that is there: the result, and whether the connection stays open.
pub outbox_store_close : ℕ → StoreResult × Bool
outbox_store_close rc = if rc == sqlite_ok then (ok, false) else (map_sqlite_result rc, true)

-- ===== src/Storage/Result.antt =====
-- The results of modules/storage/outbox_store.c and of the SQLite calls that it makes. SQLite is a
-- parameter: what its functions return is an argument of the definitions that call them.
pub mod Errors
use edgevision_gateway.Common.{ℕ, ◌||◌, ◌==◌, ◌!=◌, Option, none, some, if◌then◌else◌}

-- OUTBOX_STORE_OK and so on.
pub data StoreResult : Type 0 where
  ok empty not_found invalid_argument busy db_error schema_error serialization_error no_memory :
      StoreResult

abbrev pub sqlite_ok : ℕ
sqlite_ok = 0

abbrev pub sqlite_busy : ℕ
sqlite_busy = 5

abbrev pub sqlite_locked : ℕ
sqlite_locked = 6

abbrev pub sqlite_nomem : ℕ
sqlite_nomem = 7

abbrev pub sqlite_row : ℕ
sqlite_row = 100

abbrev pub sqlite_done : ℕ
sqlite_done = 101

pub map_sqlite_result : ℕ → StoreResult
map_sqlite_result rc =
    if rc == sqlite_ok
    then ok
    else if (rc == sqlite_locked) || (rc == sqlite_busy)
    then busy
    else if rc == sqlite_nomem
    then no_memory
    else db_error

-- The answers of SQLite to a statement that writes: it is prepared, bound, stepped once and
-- finalized. A statement with fewer parameters binds them with `sqlite_ok`.
pub record Stmt : Type 0 where
  pub prepare : ℕ
  pub bind_first : ℕ
  pub bind_second : ℕ
  pub step : ℕ
  pub finalize : ℕ

-- The result with which the code leaves for its cleanup before the statement is stepped, if it does.
unfoldable pub unbound : Stmt → Option StoreResult
unbound s =
    if s.prepare != sqlite_ok
    then some (map_sqlite_result s.prepare)
    else if s.bind_first != sqlite_ok
    then some (map_sqlite_result s.bind_first)
    else if s.bind_second != sqlite_ok
    then some (map_sqlite_result s.bind_second)
    else none

-- The answers to a query that is stepped once. `step_error` is an error of the step; without one,
-- the step brings SQLITE_ROW where there is a row, and SQLITE_DONE where there is none.
pub record Query : Type 0 where
  pub prepare : ℕ
  pub step_error : Option ℕ
  pub finalize : ℕ

-- finalize in a cleanup that lets its error replace a success only.
unfoldable pub after_finalize : ℕ → StoreResult → StoreResult
after_finalize rc ok = if rc != sqlite_ok then map_sqlite_result rc else ok
after_finalize rc result = result

-- The same where OUTBOX_STORE_EMPTY counts as a success, too.
pub after_finalize_empty : ℕ → StoreResult → StoreResult
after_finalize_empty rc ok = if rc != sqlite_ok then map_sqlite_result rc else ok
after_finalize_empty rc empty = if rc != sqlite_ok then map_sqlite_result rc else empty
after_finalize_empty rc result = result

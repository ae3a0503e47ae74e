-- ===== src/Storage/Result/Errors.antt =====
-- Which results of modules/storage/outbox_store.c are errors, and what a success says of SQLite.
use edgevision_gateway.Common.{
  ℕ, ◌≡◌, ◌≢◌, ◌↔◌, refl, arith, ◌!=◌, true, Option, none, some, if_both,
}
use edgevision_gateway.Storage.Result.{
  StoreResult, ok, empty, not_found, invalid_argument, busy, db_error, schema_error,
  serialization_error, no_memory, sqlite_ok, map_sqlite_result, Stmt, unbound, after_finalize,
  after_finalize_empty,
}

pub map_sqlite_result-ok : (rc : ℕ) → (map_sqlite_result rc ≡ ok) ↔ (rc ≡ sqlite_ok)
unfolding map_sqlite_result
map_sqlite_result-ok rc = (λ h. ground arith, λ h. ground arith)

-- A return code that is not SQLITE_OK gives an error.
pub map_error : (rc : ℕ) → (rc != sqlite_ok) ≡ true → map_sqlite_result rc ≢ ok
map_error rc h e = let zero_rc = (map_sqlite_result-ok rc).0 e in absurd (ground arith)

abbrev pub IsError : Option StoreResult → Type 0
IsError none = Unit
IsError (some r) = r ≢ ok

pub unbound-IsError : (s : Stmt) → IsError (unbound s)
unfolding unbound
unbound-IsError s = if_both IsError (s.prepare != sqlite_ok) _ _ (map_error s.prepare) (λ p.
    if_both IsError (s.bind_first != sqlite_ok) _ _ (map_error s.bind_first)
      (λ b. if_both IsError (s.bind_second != sqlite_ok) _ _ (map_error s.bind_second) (λ c. tt)))

-- All calls before the step succeed.
abbrev pub IsBound : Stmt → Type 0
IsBound s = (s.prepare ≡ sqlite_ok) × (s.bind_first ≡ sqlite_ok) × (s.bind_second ≡ sqlite_ok)

pub unbound-none : (s : Stmt) → IsBound s → unbound s ≡ none
unfolding unbound
unbound-none s (p, b, c) = ground arith

pub after_finalize-ok : (rc : ℕ) (r : StoreResult) → after_finalize rc r ≡ ok → r ≡ ok
unfolding after_finalize
after_finalize-ok rc ok e = refl
after_finalize-ok rc empty e = e
after_finalize-ok rc not_found e = e
after_finalize-ok rc invalid_argument e = e
after_finalize-ok rc busy e = e
after_finalize-ok rc db_error e = e
after_finalize-ok rc schema_error e = e
after_finalize-ok rc serialization_error e = e
after_finalize-ok rc no_memory e = e

pub after_finalize_empty_fine : after_finalize_empty sqlite_ok empty ≡ empty
unfolding after_finalize_empty
after_finalize_empty_fine = refl

pub after_finalize_fine : after_finalize sqlite_ok ok ≡ ok
unfolding after_finalize
after_finalize_fine = refl

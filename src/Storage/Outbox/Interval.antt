-- ===== src/Storage/Outbox/Interval.antt =====
-- outbox_store_save_interval and outbox_store_load_interval of modules/storage/outbox_store.c.
use edgevision_gateway.Common.{
  ◌≡◌, ◌≢◌, ◌⊎◌, inl, inr, refl, subst, arith, Bool, true, not, if◌then◌else◌, ◌||◌, ◌!=◌, Option,
  none, some, if_both,
}
use edgevision_gateway.Common.Int.{ℤ}
use edgevision_gateway.Storage.Result.{
  StoreResult, ok, invalid_argument, sqlite_ok, sqlite_done, map_sqlite_result, Stmt, unbound,
  Query, after_finalize,
}
use edgevision_gateway.Storage.Result.Errors.{
  IsError, unbound-IsError, after_finalize-ok, map_error,
}
use edgevision_gateway.Storage.Tables.{Database}
use edgevision_gateway.Storage.Outbox.{
  in_range, outbox_store_save_interval, load_row, load_finalized, outbox_store_load_interval,
}

-- A save that returns OUTBOX_STORE_OK has written a value in range and nothing else; one that
-- returns an error has written that value or nothing.
abbrev pub IsStored : ℤ → Database → StoreResult × Database → Type 0
IsStored ms before (r, after) =
    ((in_range ms ≡ true) × (after ≡ record before { interval_ms = some ms }))
    ⊎ ((r ≢ ok) × (after ≡ before))

pub save-IsStored :
    (has_store : Bool) (s : Stmt) (ms : ℤ) (db : Database)
    → s.step ≢ sqlite_ok
    → IsStored ms db (outbox_store_save_interval has_store s ms db)
unfolding outbox_store_save_interval
save-IsStored has_store s ms db never =
    if_both (IsStored ms db) (not has_store || not (in_range ms)) (invalid_argument, db) _
      (λ h. inr (λ e. absurd cc, refl)) (λ h. behind (unbound s) (unbound-IsError s) (ground arith))
  where
    behind :
        (u : Option StoreResult)
        → IsError u
        → in_range ms ≡ true
        → IsStored ms db (elim u [
          | some r ↦ (r, db)
          | none ↦
              if s.step != sqlite_done
              then (after_finalize s.finalize (map_sqlite_result s.step), db)
              else (after_finalize s.finalize ok, record db { interval_ms = some ms })
        ])
    behind (some r) bad range = inr (bad, refl)
    behind none bad range =
        if_both (IsStored ms db) (s.step != sqlite_done) _ _
          (λ h. inr (λ e. map_error s.step (ground arith) (after_finalize-ok s.finalize _ e), refl))
          (λ h. inl (range, refl))

-- An interval that was saved with OUTBOX_STORE_OK is in range, 100 to 60000 ms, and a load that meets no
-- SQLite error brings it back; the other tables are as they were.
pub interval-roundtrip :
    (has_store : Bool) (s : Stmt) (q : Query) (ms : ℤ) (db after : Database)
    → s.step ≢ sqlite_ok
    → outbox_store_save_interval has_store s ms db ≡ (ok, after)
    → q.prepare ≡ sqlite_ok
    → q.step_error ≡ none
    → q.finalize ≡ sqlite_ok
    → (in_range ms ≡ true)
      × (outbox_store_load_interval true q true after ≡ (ok, some ms))
      × (after.measurements ≡ db.measurements)
      × (after.outbox ≡ db.outbox)
unfolding outbox_store_load_interval load_finalized load_row
interval-roundtrip has_store s q ms db after never saved prepared stepped finished =
    elim (subst (λ t. IsStored ms db t) saved (save-IsStored has_store s ms db never)) [
      | inl (range, is) ↦
          (range, rw (is, prepared, stepped, range, finished) refl, rw is refl, rw is refl)
      | inr (bad, is) ↦ absurd (bad refl)
    ]

-- Where sqlite3_finalize repeats an error of the step and makes none of its own, a save succeeds and has
-- written, or fails and has not.
abbrev pub IsExact : ℤ → Database → StoreResult × Database → Type 0
IsExact ms before (r, after) =
    ((r ≡ ok) × (in_range ms ≡ true) × (after ≡ record before { interval_ms = some ms }))
    ⊎ ((r ≢ ok) × (after ≡ before))

pub save-IsExact :
    (s : Stmt) (ms : ℤ) (db : Database)
    → s.step ≢ sqlite_ok
    → (s.step ≡ sqlite_done → s.finalize ≡ sqlite_ok)
    → IsExact ms db (outbox_store_save_interval true s ms db)
unfolding outbox_store_save_interval after_finalize
save-IsExact s ms db never quiet =
    if_both (IsExact ms db) (not true || not (in_range ms)) (invalid_argument, db) _
      (λ h. inr (λ e. absurd cc, refl)) (λ h. behind (unbound s) (unbound-IsError s) (ground arith))
  where
    behind :
        (u : Option StoreResult)
        → IsError u
        → in_range ms ≡ true
        → IsExact ms db (elim u [
          | some r ↦ (r, db)
          | none ↦
              if s.step != sqlite_done
              then (after_finalize s.finalize (map_sqlite_result s.step), db)
              else (after_finalize s.finalize ok, record db { interval_ms = some ms })
        ])
    behind (some r) bad range = inr (bad, refl)
    behind none bad range =
        if_both (IsExact ms db) (s.step != sqlite_done) _ _
          (λ h. inr (λ e. map_error s.step (ground arith) (after_finalize-ok s.finalize _ e), refl))
          (λ h. let fine = quiet (ground (arith, h)) in inl (rw fine refl, range, refl))

-- ===== src/Storage/Outbox/Atomic.antt =====
-- outbox_store_save_measurement of modules/storage/outbox_store.c writes both of its rows or neither.
use edgevision_gateway.Common.{
  ℕ, ◌≡◌, ◌≢◌, ◌⊎◌, inl, inr, refl, arith, Bool, not, ◌||◌, Option, none, some, List, length, ◌==◌,
  ◌!=◌, if◌then◌else◌, if_both,
}
use edgevision_gateway.Storage.Result.{
  StoreResult, ok, invalid_argument, serialization_error, no_memory, sqlite_ok, sqlite_done,
  map_sqlite_result, Stmt, unbound,
}
use edgevision_gateway.Storage.Result.Errors.{IsError, unbound-IsError, map_error}
use edgevision_gateway.Storage.Tables.{Database}
use edgevision_gateway.Storage.Outbox.{
  Json, text, allocation_error, json_failure, prepare_save_payload, Connection, idle,
  in_transaction, SaveAnswers, insert_fails, rolled_back, with_measurement, with_entry, save_commit,
  save_entry, save_rows, save_payload, outbox_store_save_measurement,
}

-- What other connections see.
abbrev pub committed : Connection → Database
committed (idle db) = db
committed (in_transaction before working) = before

-- Nothing was changed, and no transaction is left unless ROLLBACK failed.
abbrev pub IsKept : Database → ℕ → Connection → Type 0
IsKept db rollback_rc c = (committed c ≡ db) × ((c ≡ idle db) ⊎ (rollback_rc ≢ sqlite_ok))

-- Either the call succeeds and both rows are there, or it names an error and nothing is.
abbrev pub IsSaved : SaveAnswers → List ℕ → Json → Database → StoreResult × Connection → Type 0
IsSaved a topic json db (r, c) =
    ((r ≡ ok)
      × (bytes : List ℕ) × (json ≡ text bytes)
      × (c ≡ idle (with_entry a topic (with_measurement a bytes db))))
    ⊎ ((r ≢ ok) × IsKept db a.rollback_rc c)

-- An INSERT that goes to the cleanup has an error, since sqlite3_step never returns SQLITE_OK.
insert_fails-IsError : (s : Stmt) → s.step ≢ sqlite_ok → IsError (insert_fails s)
unfolding insert_fails
insert_fails-IsError s never = behind (unbound s) (unbound-IsError s)
  where
    behind :
        (u : Option StoreResult)
        → IsError u
        → IsError (elim u [
          | some r ↦ some r
          | none ↦
              if s.step != sqlite_done
              then some (map_sqlite_result s.step)
              else if s.finalize != sqlite_ok
              then some (map_sqlite_result s.finalize)
              else none
        ])
    behind (some r) h = h
    behind none h =
        if_both IsError (s.step != sqlite_done) _ _ (λ k. map_error s.step (ground arith))
          (λ k. if_both IsError (s.finalize != sqlite_ok) _ _ (map_error s.finalize) (λ f. tt))

rolled_back-IsKept :
    (rollback_rc : ℕ) (before working : Database) (r : StoreResult)
    → IsKept before rollback_rc (rolled_back rollback_rc before working r).1
unfolding rolled_back
rolled_back-IsKept rollback_rc before working r =
    if_both (λ c. IsKept before rollback_rc c) (rollback_rc == sqlite_ok) _ _
      (λ h. (refl, inl refl)) (λ h. (refl, inr (ground arith)))

module _ (a : SaveAnswers) (topic : List ℕ) (json : Json) (db : Database) where
  refused-keeps :
      (r : StoreResult) (working : Database)
      → r ≢ ok
      → IsSaved a topic json db (rolled_back a.rollback_rc db working r)
  unfolding rolled_back
  refused-keeps r working bad = inr (bad, rolled_back-IsKept a.rollback_rc db working r)

  module _ (bytes : List ℕ) (made : json ≡ text bytes) where
    save_commit-IsSaved :
        IsSaved a topic json db
          (save_commit a db (with_entry a topic (with_measurement a bytes db)))
    unfolding save_commit
    save_commit-IsSaved =
        if_both (IsSaved a topic json db) (a.commit_rc != sqlite_ok) _ _
          (λ h. refused-keeps _ _ (map_error a.commit_rc h)) (λ h. inl (refl, bytes, made, refl))

    save_entry-IsSaved :
        (o : Option StoreResult)
        → IsError o
        → IsSaved a topic json db (save_entry a topic db (with_measurement a bytes db) o)
    unfolding save_entry
    save_entry-IsSaved (some r) bad = refused-keeps r (with_measurement a bytes db) bad
    save_entry-IsSaved none bad = save_commit-IsSaved

    save_rows-IsSaved :
        (o : Option StoreResult)
        → IsError o
        → a.insert_outbox.step ≢ sqlite_ok
        → IsSaved a topic json db (save_rows a bytes topic db o)
    unfolding save_rows
    save_rows-IsSaved (some r) bad never = refused-keeps r db bad
    save_rows-IsSaved none bad never =
        save_entry-IsSaved (insert_fails a.insert_outbox)
          (insert_fails-IsError a.insert_outbox never)

    begin-IsSaved :
        a.insert_measurement.step ≢ sqlite_ok
        → a.insert_outbox.step ≢ sqlite_ok
        → IsSaved a topic json db (save_payload a topic db (ok, some bytes))
    unfolding save_payload
    begin-IsSaved never_first never_second =
        if_both (IsSaved a topic json db) (a.begin_rc != sqlite_ok) _ _
          (λ h. inr (map_error a.begin_rc h, (refl, inl refl)))
          (λ h.
            save_rows-IsSaved (insert_fails a.insert_measurement)
              (insert_fails-IsError a.insert_measurement never_first) never_second)

-- Saving a measurement that is there, whatever SQLite answers, but that sqlite3_step never returns
-- SQLITE_OK: either the call succeeds, and both rows are committed, with the serialised measurement
-- and the topic, pending and without an attempt; or it returns an error, and the database is as it
-- was, with no transaction left open unless the ROLLBACK itself failed.
pub save-IsSaved :
    {A : Type 0} (to_json : A → Json) (has_store : Bool) (m : A) (topic : List ℕ) (a : SaveAnswers)
    (db : Database)
    → a.insert_measurement.step ≢ sqlite_ok
    → a.insert_outbox.step ≢ sqlite_ok
    → IsSaved a topic
        (to_json m)
        db
        (outbox_store_save_measurement to_json has_store (some m) topic a db)
unfolding outbox_store_save_measurement prepare_save_payload
save-IsSaved to_json has_store m topic a db never_first never_second =
    if_both (λ p. IsSaved a topic (to_json m) db (save_payload a topic db p))
      (not has_store || (length topic == 0)) (invalid_argument, none) _
      (λ h. refused invalid_argument (λ e. absurd cc)) (λ h. by_json (to_json m) refl)
  where
    refused :
        (r : StoreResult)
        → r ≢ ok
        → IsSaved a topic (to_json m) db (save_payload a topic db (r, none))
    refused r bad = unfold save_payload in inr (bad, (refl, inl refl))

    by_json :
        (j : Json)
        → to_json m ≡ j
        → IsSaved a topic (to_json m) db (
            save_payload a topic db (elim j [
              | text json ↦ (ok, some json)
              | allocation_error ↦ (no_memory, none)
              | json_failure ↦ (serialization_error, none)
            ]))
    by_json (text bytes) e = begin-IsSaved a topic (to_json m) db bytes e never_first never_second
    by_json allocation_error e = refused no_memory (λ e. absurd cc)
    by_json json_failure e = refused serialization_error (λ e. absurd cc)

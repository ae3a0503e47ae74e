-- ===== src/Storage/Outbox/History.antt =====
-- The outbox of modules/storage/outbox_store.c through any number of saves, deliveries and failed
-- deliveries.
use edgevision_gateway.Common.{
  ℕ, ◌≡◌, ◌≢◌, inl, inr, refl, sym, ap, subst, ◌∙◌, true, some, List, [], ◌∷◌, ◌++◌, append-nil,
  append_assoc, length, ◌==◌, if_both,
}
use edgevision_gateway.Common.Int.{ℤ}
use edgevision_gateway.Storage.Result.{StoreResult, ok, invalid_argument, Stmt, Query}
use edgevision_gateway.Storage.Tables.{Database, set_sent, set_failure}
use edgevision_gateway.Storage.Tables.Pending.{queue_of}
use edgevision_gateway.Storage.Tables.Updates.{
  queue-update_where, queue-set_sent, set_failure_same, set_sent_id, set_sent-IsEntry,
  set_failure-IsEntry,
}
use edgevision_gateway.Storage.Outbox.{
  Json, idle, SaveAnswers, with_measurement, with_entry, outbox_store_save_measurement, OutboxItem,
  CopyAnswers, outbox_store_read_earliest_pending, outbox_store_mark_sent,
  outbox_store_record_delivery_failure,
}
use edgevision_gateway.Storage.Outbox.Atomic.{committed, IsSaved, save-IsSaved}
use edgevision_gateway.Storage.Outbox.Reads.{IsValid, IsHead, read-IsHead}
use edgevision_gateway.Storage.Outbox.Steps.{
  IsUpdated, update_entry-IsUpdated, update-IsValid, IsFresh, IsStepped, save-IsValid,
  queue_with_entry,
}

module _ {A : Type 0} (to_json : A → Json) (start : Database) where
  -- A history from `start`: the ids that were saved, the ids that were delivered, both in order, and the
  -- database. A delivery reads the earliest pending entry and marks it as sent; a failed delivery
  -- reads it and records the failure, with whatever result. A save that is refused is part of it.
  pub data Run : List ℕ → List ℕ → Database → Type 0 where
    begin : Run [] [] start
    save :
        {saved sent : List ℕ} {db after : Database} (m : A) (topic : List ℕ) (a : SaveAnswers)
        → Run saved sent db
        → IsStepped a
        → IsFresh a db
        → outbox_store_save_measurement to_json true (some m) topic a db ≡ (ok, idle after)
        → Run (saved ++ a.outbox_id ∷ []) sent after
    refuse :
        {saved sent : List ℕ} {db after : Database} (m : A) (topic : List ℕ) (a : SaveAnswers)
        (r : StoreResult)
        → Run saved sent db
        → IsStepped a
        → outbox_store_save_measurement to_json true (some m) topic a db ≡ (r, idle after)
        → r ≢ ok
        → Run saved sent after
    deliver :
        {saved sent : List ℕ} {db after : Database} (q : Query) (c : CopyAnswers) (s : Stmt)
        (now : ℤ) (item : OutboxItem)
        → Run saved sent db
        → outbox_store_read_earliest_pending true q c db ≡ (ok, some item)
        → outbox_store_mark_sent true s item.id now db ≡ (ok, after)
        → Run saved (sent ++ item.id ∷ []) after
    fail :
        {saved sent : List ℕ} {db after : Database} (q : Query) (c : CopyAnswers) (s : Stmt)
        (error_text : List ℕ) (item : OutboxItem) (r : StoreResult)
        → Run saved sent db
        → outbox_store_read_earliest_pending true q c db ≡ (ok, some item)
        → outbox_store_record_delivery_failure true s item.id error_text db ≡ (r, after)
        → Run saved sent after

  -- The invariant, and the queue as the difference of what was saved and sent.
  abbrev pub Holds : List ℕ → List ℕ → Database → Type 0
  Holds saved sent db = IsValid db × (queue_of start.outbox ++ saved ≡ sent ++ queue_of db.outbox)

  pub save-Holds :
      (saved sent : List ℕ) (db after : Database) (m : A) (topic : List ℕ) (a : SaveAnswers)
      → Holds saved sent db
      → IsFresh a db
      → IsSaved a topic (to_json m) db (ok, idle after)
      → Holds (saved ++ a.outbox_id ∷ []) sent after
  save-Holds saved sent db after m topic a (v, q) fresh (inr (bad, kept)) = absurd (bad refl)
  save-Holds saved sent db after m topic a (v, q) fresh (inl (is_ok, bytes, made, is)) =
      let now : after ≡ with_entry a topic (with_measurement a bytes db) = ap committed is in
      let appended : queue_of after.outbox ≡ queue_of db.outbox ++ a.outbox_id ∷ [] =
        ap (λ (d : Database). queue_of d.outbox) now ∙ queue_with_entry a topic bytes db in
      (
        subst IsValid (sym now) (save-IsValid a topic bytes db fresh v),
        sym (append_assoc (queue_of start.outbox) saved (a.outbox_id ∷ []))
            ∙ ap (λ l. l ++ a.outbox_id ∷ []) q
            ∙ append_assoc sent (queue_of db.outbox) (a.outbox_id ∷ [])
            ∙ ap (λ l. sent ++ l) (sym appended),
      )

  refuse-Holds :
      (saved sent : List ℕ) (db after : Database) (m : A) (topic : List ℕ) (a : SaveAnswers)
      (r : StoreResult)
      → Holds saved sent db
      → IsSaved a topic (to_json m) db (r, idle after)
      → r ≢ ok
      → Holds saved sent after
  refuse-Holds saved sent db after m topic a r h (inl t) bad = absurd (bad t.0)
  refuse-Holds saved sent db after m topic a r h (inr (error, (same, kept))) bad =
      subst (Holds saved sent) (sym same) h

  pub deliver-Holds :
      (saved sent later : List ℕ) (db after : Database) (id : ℕ) (now : ℤ)
      → Holds saved sent db
      → queue_of db.outbox ≡ id ∷ later
      → IsUpdated id (set_sent now) db (ok, after)
      → Holds saved (sent ++ id ∷ []) after
  deliver-Holds saved sent later db after id now (v, q) at (inr (same, bad)) = absurd (bad refl)
  deliver-Holds saved sent later db after id now (v, q) at (inl is) =
      let popped : queue_of after.outbox ≡ later =
        ap (λ (d : Database). queue_of d.outbox) is
        ∙ queue-set_sent id 0 now db.outbox later v.ascending at in
      (
        subst IsValid (sym is) (
            update-IsValid id (set_sent now) db (set_sent_id now)
              (set_sent-IsEntry now db.measurements) v),
        q
            ∙ ap (λ l. sent ++ l) at
            ∙ sym (append_assoc sent (id ∷ []) later)
            ∙ ap (λ l. (sent ++ id ∷ []) ++ l) (sym popped),
      )

  pub fail-Holds :
      (saved sent : List ℕ) (db after : Database) (id : ℕ) (t : List ℕ) (r : StoreResult)
      → Holds saved sent db
      → IsUpdated id (set_failure t) db (r, after)
      → Holds saved sent after
  fail-Holds saved sent db after id t r h (inr (same, bad)) = subst (Holds saved sent) (sym same) h
  fail-Holds saved sent db after id t r (v, q) (inl is) = (
    subst IsValid (sym is) (
        update-IsValid id (set_failure t) db (λ x. (set_failure_same t x).0)
          (set_failure-IsEntry t db.measurements) v),
    q
        ∙ ap (λ l. sent ++ l)
            (sym (
              ap (λ (d : Database). queue_of d.outbox) is
              ∙ queue-update_where id (set_failure t) db.outbox (set_failure_same t))),
  )

  committed-rows :
      (m : A) (topic : List ℕ) (a : SaveAnswers) (db after : Database) (r : StoreResult)
      → IsStepped a
      → outbox_store_save_measurement to_json true (some m) topic a db ≡ (r, idle after)
      → IsSaved a topic (to_json m) db (r, idle after)
  committed-rows m topic a db after r (first, second) e =
      subst (IsSaved a topic (to_json m) db) e (save-IsSaved to_json true m topic a db first second)

  marked_of :
      (s : Stmt) (id : ℕ) (now : ℤ) (db after : Database)
      → outbox_store_mark_sent true s id now db ≡ (ok, after)
      → IsUpdated id (set_sent now) db (ok, after)
  unfolding outbox_store_mark_sent
  marked_of s id now db after e =
      subst (IsUpdated id (set_sent now) db) e (update_entry-IsUpdated s id (set_sent now) db)

  pub failed_of :
      (s : Stmt) (id : ℕ) (t : List ℕ) (db after : Database) (r : StoreResult)
      → outbox_store_record_delivery_failure true s id t db ≡ (r, after)
      → IsUpdated id (set_failure t) db (r, after)
  unfolding outbox_store_record_delivery_failure
  failed_of s id t db after r e = subst (IsUpdated id (set_failure t) db) e (
      if_both (IsUpdated id (set_failure t) db) (length t == 0) (invalid_argument, db) _
        (λ h. inr (refl, λ k. absurd cc)) (λ h. update_entry-IsUpdated s id (set_failure t) db))

  Run-Holds :
      {saved sent : List ℕ} {db : Database}
      → IsValid start
      → Run saved sent db
      → Holds saved sent db
  Run-Holds v begin = (v, append-nil (queue_of start.outbox))
  Run-Holds v (save {saved} {sent} {db} {after} m topic a run steps fresh e) =
      save-Holds saved sent db after m topic a (Run-Holds v run) fresh
        (committed-rows m topic a db after ok steps e)
  Run-Holds v (refuse {saved} {sent} {db} {after} m topic a r run steps e bad) =
      refuse-Holds saved sent db after m topic a r (Run-Holds v run)
        (committed-rows m topic a db after r steps e) bad
  Run-Holds v (deliver {saved} {sent} {db} {after} q c s now item run read e) =
      let h = Run-Holds v run in
      let (is_ok, (later, at), has, digits) =
        subst (IsHead db) read (read-IsHead db true q c h.0) in
      deliver-Holds saved sent later db after item.id now h at (marked_of s item.id now db after e)
  Run-Holds v (fail {saved} {sent} {db} {after} q c s t item r run read e) =
      fail-Holds saved sent db after item.id t r (Run-Holds v run)
        (failed_of s item.id t db after r e)

-- Through any history of saves, refused saves, deliveries and failed deliveries, from valid tables:
-- the tables stay valid, and the ids that were pending at the start, followed by those saved since,
-- are the ids delivered since, followed by those pending now. So every saved measurement is delivered
-- in the order of saving, none is lost, and none is delivered twice. A delivery counts when the entry
-- is marked as sent; SQLite's row ids are new, and its steps never return SQLITE_OK.
pub outbox-IsFifo :
    {A : Type 0} (to_json : A → Json) (start : Database) {saved sent : List ℕ} {db : Database}
    → IsValid start
    → Run to_json start saved sent db
    → IsValid db × (queue_of start.outbox ++ saved ≡ sent ++ queue_of db.outbox)
outbox-IsFifo to_json start v run = Run-Holds to_json start v run

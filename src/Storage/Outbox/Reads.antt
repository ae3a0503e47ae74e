-- ===== src/Storage/Outbox/Reads.antt =====
-- outbox_store_read_earliest_pending of modules/storage/outbox_store.c: it reads the head of the queue
-- of pending entries.
use edgevision_gateway.Common.{
  ℕ, ◌≡◌, refl, sym, ap, ◌∙◌, arith, Bool, true, false, not, ◌||◌, Option, none, some, List, [],
  ◌∷◌, length, ◌!=◌, if_both, All,
}
use edgevision_gateway.Common.Int.{ℤ, pos, negsuc}
use edgevision_gateway.Storage.Result.{
  StoreResult, ok, empty, invalid_argument, db_error, sqlite_ok, Query,
}
use edgevision_gateway.Storage.Result.Errors.{after_finalize_empty_fine}
use edgevision_gateway.Storage.Tables.{StoredMeasurement, OutboxRow, Database, payload_of}
use edgevision_gateway.Storage.Tables.Pending.{
  IsAscending, IsEntry, queue_of, IsFirst, select-IsFirst,
}
use edgevision_gateway.Storage.Outbox.{
  OutboxItem, CopyAnswers, copy_fails, copy_texts, copy_count, read_row, read_finalized,
  outbox_store_read_earliest_pending,
}

-- The invariant of the tables: ids rise, every entry has its measurement, and there are as many of
-- the one as of the other.
pub record IsValid (db : Database) : Type 0 where
  pub ascending : IsAscending 0 db.outbox
  pub entries : All (IsEntry db.measurements) db.outbox
  pub paired : length db.measurements ≡ length db.outbox

-- An item that is handed out is the head of the queue, with its topic and the payload that was saved
-- with it.
abbrev pub IsHead : Database → StoreResult × Option OutboxItem → Type 0
IsHead db (result, none) = Unit
IsHead db (result, some item) =
    (result ≡ ok)
    × ((later : List ℕ) × (queue_of db.outbox ≡ item.id ∷ later))
    × (payload_of item.measurement_id db.measurements ≡ some item.payload_json)
    × (length item.message_id ≡ 32)

module _ (db : Database) where
  copy_texts-IsHead :
      (item : OutboxItem) (t p : Option StoreResult)
      → ((later : List ℕ) × (queue_of db.outbox ≡ item.id ∷ later))
      → payload_of item.measurement_id db.measurements ≡ some item.payload_json
      → length item.message_id ≡ 32
      → IsHead db (copy_texts item t p)
  unfolding copy_texts
  copy_texts-IsHead item (some r) p head has long = tt
  copy_texts-IsHead item none (some r) head has long = tt
  copy_texts-IsHead item none none head has long = (refl, head, has, long)

  copy_count-IsHead :
      (a : CopyAnswers) (r : OutboxRow) (p : List ℕ) (n : ℤ)
      → ((later : List ℕ) × (queue_of db.outbox ≡ r.id ∷ later))
      → payload_of r.measurement_id db.measurements ≡ some p
      → IsHead db (copy_count a r p n)
  unfolding copy_count
  copy_count-IsHead a r p (negsuc n) head has = tt
  copy_count-IsHead a r p (pos n) head has =
      if_both (IsHead db) (a.message_id_null || (length r.message_id != 32)) (db_error, none) _
        (λ h. tt)
        (λ h.
          copy_texts-IsHead _ (copy_fails a.topic_null a.topic_malloc) _ head has (ground arith))

  read_row-IsHead :
      (a : CopyAnswers) (e : Option ℕ) (row : Option (OutboxRow × List ℕ))
      → IsFirst db.measurements (queue_of db.outbox) row
      → IsHead db (read_row a e row)
  unfolding read_row
  read_row-IsHead a (some rc) row first = tt
  read_row-IsHead a none none first = tt
  read_row-IsHead a none (some (r, p)) first =
      let (later, at, has) = found (queue_of db.outbox) first in
      copy_count-IsHead a r p r.attempt_count (later, at) has
    where
      found :
          (q : List ℕ)
          → IsFirst db.measurements q (some (r, p))
          → (later : List ℕ) × (q ≡ r.id ∷ later)
            × (payload_of r.measurement_id db.measurements ≡ some p)
      found [] h = absurd cc
      found (id ∷ later) (s, t, is, same, has, entry) =
          let row : r ≡ s = cc is in
          let payload : p ≡ t = cc is in
          (
            later,
            ap (λ i. i ∷ later) (sym same ∙ ap (λ (x : OutboxRow). x.id) (sym row)),
            ap (λ (x : OutboxRow). payload_of x.measurement_id db.measurements) row
                ∙ has
                ∙ ap some (sym payload),
          )

  read_finalized-IsHead :
      (rc : ℕ) (x : StoreResult × Option OutboxItem) → IsHead db x → IsHead db (read_finalized rc x)
  unfolding read_finalized
  read_finalized-IsHead rc (result, none) h = tt
  read_finalized-IsHead rc (result, some item) h =
      if_both (IsHead db) (rc != sqlite_ok) _ _ (λ k. tt) (λ k. h)

  -- On tables that satisfy the invariant, an item that is handed out is the head of the queue of
  -- pending entries, the one that was saved first; its payload is the text that was saved for it, and its
  -- message id has 32 digits. So it is whatever SQLite and malloc answer.
  pub read-IsHead :
      (has_store : Bool) (s : Query) (a : CopyAnswers)
      → IsValid db
      → IsHead db (outbox_store_read_earliest_pending has_store s a db)
  unfolding outbox_store_read_earliest_pending
  read-IsHead has_store s a v =
      if_both (IsHead db) (not has_store) (invalid_argument, none) _ (λ h. tt)
        (λ h.
          if_both (IsHead db) (s.prepare != sqlite_ok) _ _ (λ k. tt)
            (λ k. read_finalized-IsHead s.finalize _ (
              read_row-IsHead a s.step_error _
                (select-IsFirst db.measurements 0 db.outbox v.ascending v.entries))))

-- No call fails.
abbrev pub IsFine : Query → CopyAnswers → Type 0
IsFine s a =
    (s.prepare ≡ sqlite_ok)
    × (s.step_error ≡ none)
    × (s.finalize ≡ sqlite_ok)
    × (a.message_id_null ≡ false)
    × (a.topic_null ≡ none)
    × (a.topic_malloc ≡ true)
    × (a.payload_null ≡ none)
    × (a.payload_malloc ≡ true)

abbrev pub IsAnswer : List ℕ → StoreResult × Option OutboxItem → Type 0
IsAnswer [] x = x ≡ (empty, none)
IsAnswer (id ∷ later) x = (item : OutboxItem) × (x ≡ (ok, some item)) × (item.id ≡ id)

fine_row :
    (measurements : List StoredMeasurement) (s : Query) (a : CopyAnswers)
    (o : Option (OutboxRow × List ℕ)) (q : List ℕ)
    → IsFine s a
    → IsFirst measurements q o
    → IsAnswer q (read_finalized s.finalize (read_row a s.step_error o))
unfolding read_finalized read_row copy_count copy_texts copy_fails
fine_row measurements s a o [] (p, e, f, m, t, u, x, y) first =
    rw (first, e, f) (ap (λ (t : StoreResult). (t, none)) after_finalize_empty_fine)
fine_row measurements s a o (id ∷ later) (p, e, f, m, t, u, x, y)
      (r, payload, is, same, has, entry) =
    let (n, count) = entry.1 in
    let long = entry.2 in rw (is, e, f, count, m, long, t, u, x, y) (_, refl, same)

-- Where no call of SQLite or malloc fails, a read returns OUTBOX_STORE_EMPTY if no entry is pending, and
-- otherwise the entry at the head of the queue.
pub read-IsAnswer :
    (s : Query) (a : CopyAnswers) (db : Database)
    → IsValid db
    → IsFine s a
    → IsAnswer (queue_of db.outbox) (outbox_store_read_earliest_pending true s a db)
unfolding outbox_store_read_earliest_pending
read-IsAnswer s a db v fine = rw (fine.0) (
    fine_row db.measurements s a _ (queue_of db.outbox) fine
      (select-IsFirst db.measurements 0 db.outbox v.ascending v.entries))

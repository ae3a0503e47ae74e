-- ===== src/Workers/Pipeline/Storing.antt =====
-- gateway_storage_worker saves a measurement.
use edgevision_gateway.Common.{
  ℕ, ◌≡◌, ◌≢◌, inl, inr, refl, sym, subst, Bool, true, false, List, [], ◌∷◌, ◌++◌, length, leb,
  append_assoc, if_both,
}
use edgevision_gateway.Domain.Measurement.{Measurement}
use edgevision_gateway.Storage.Result.{
  StoreResult, ok, empty, not_found, invalid_argument, busy, db_error, schema_error,
  serialization_error, no_memory,
}
use edgevision_gateway.Storage.Tables.{Database}
use edgevision_gateway.Storage.Tables.Pending.{queue_of}
use edgevision_gateway.Storage.Outbox.{Json, Connection, SaveAnswers}
use edgevision_gateway.Storage.Outbox.Atomic.{committed, IsSaved, save-IsSaved}
use edgevision_gateway.Storage.Outbox.Steps.{IsFresh, IsStepped, queue_with_entry}
use edgevision_gateway.Storage.Outbox.History.{Holds, save-Holds}
use edgevision_gateway.Workers.Pipeline.{
  at_measurements, Storage, topic_of, stored, gateway_storage_save, MeasurementTurn, measured,
  no_measurement, measurements_closed, measurement_error, after_save, storage_measurement,
}
use edgevision_gateway.Workers.Pipeline.Moves.{
  Pipeline, measurement, is_at, saved_by, saved_with, move,
}
use edgevision_gateway.Workers.Pipeline.Flow.{Delivered, Delivered-grow, Flow, grow-Flow, IsFlowing}

-- A call that fails.
stored_bad : (r : StoreResult) (c : Connection) → r ≢ ok → stored (r, c) ≡ (false, committed c)
unfolding stored
stored_bad ok c bad = absurd (bad refl)
stored_bad empty c bad = refl
stored_bad not_found c bad = refl
stored_bad invalid_argument c bad = refl
stored_bad busy c bad = refl
stored_bad db_error c bad = refl
stored_bad schema_error c bad = refl
stored_bad serialization_error c bad = refl
stored_bad no_memory c bad = refl

module _ {Double : Type 0} (to_json : Measurement Double → Json) (start : Database)
    (m : Measurement Double) (a : SaveAnswers) where
  -- A save that succeeds adds the entry behind the queue, and one that fails leaves the tables as they are.
  abbrev IsAppended : List ℕ → List ℕ → Database → Bool × Database → Type 0
  IsAppended saved sent db (true, after) =
      Holds to_json start (saved ++ a.outbox_id ∷ []) sent after
      × (queue_of after.outbox ≡ queue_of db.outbox ++ a.outbox_id ∷ [])
  IsAppended saved sent db (false, after) = after ≡ db

  stored-IsAppended :
      (saved sent topic : List ℕ) (db : Database) (x : StoreResult × Connection)
      → Holds to_json start saved sent db
      → IsFresh a db
      → IsSaved a topic (to_json m) db x
      → IsAppended saved sent db (stored x)
  unfolding stored
  stored-IsAppended saved sent topic db (r, c) h fresh (inl (is_ok, bytes, made, is)) =
      rw (is_ok, is)
        (
          save-Holds to_json start saved sent db _ m topic a h fresh
              (inl (refl, bytes, made, refl)),
          queue_with_entry a topic bytes db,
        )
  stored-IsAppended saved sent topic db (r, c) h fresh (inr (bad, (same, kept))) =
      subst (IsAppended saved sent db) (sym (stored_bad r c bad)) same

  save-IsAppended :
      (saved sent : List ℕ) (db : Database)
      → Holds to_json start saved sent db
      → IsStepped a
      → IsFresh a db
      → IsAppended saved sent db (gateway_storage_save to_json m a db)
  unfolding gateway_storage_save
  save-IsAppended saved sent db h (first, second) fresh =
      if_both (IsAppended saved sent db) (leb 256 (length (topic_of m))) (false, db) _ (λ e. refl)
        (λ e.
          stored-IsAppended saved sent (topic_of m) db _ h fresh
            (save-IsSaved to_json true m (topic_of m) a db first second))

  -- Behind the save.
  saved-IsFlowing :
      (p : Pipeline) (x : Bool × Database)
      → IsFlowing start p
      → IsAppended p.saved p.sent p.storage.db x
      → IsFlowing start
          (record p { storage = after_save x p.storage; saved = saved_by x.0 a.outbox_id p.saved })
  unfolding after_save
  saved-IsFlowing p (true, db) h ((v, q), behind) = record {
    valid = v;
    in_order = q;
    flow =
        subst
          (λ l.
            Flow p.storage.delivery_inflight l p.attempts p.publisher p.delivery.item
              p.results.item)
          (sym behind)
          (grow-Flow _ _ p.attempts p.publisher p.delivery.item p.results.item a.outbox_id h.flow);
    opened = h.opened;
    delivered =
        subst (λ l. Delivered l p.sent p.attempts)
          (append_assoc (queue_of start.outbox) p.saved (a.outbox_id ∷ []))
          (Delivered-grow a.outbox_id h.delivered);
  }
  saved-IsFlowing p (false, db) h same = record {
    valid = rw same h.valid;
    in_order = rw same h.in_order;
    flow = rw same h.flow;
    opened = h.opened;
    delivered = h.delivered;
  }

-- SQLite numbers a new entry above those that are there, and its steps never return SQLITE_OK.
abbrev pub IsSaneMeasurement : {Double : Type 0} → MeasurementTurn Double → Database → Type 0
IsSaneMeasurement (measured m a) db = IsStepped a × IsFresh a db
IsSaneMeasurement no_measurement db = Unit
IsSaneMeasurement measurements_closed db = Unit
IsSaneMeasurement measurement_error db = Unit

module _ {Double : Type 0} (to_json : Measurement Double → Json) (start : Database) where
  turn-IsFlowing :
      (closed : Bool) (turn : MeasurementTurn Double) (p : Pipeline)
      → IsSaneMeasurement turn p.storage.db
      → IsFlowing start (record p { storage = record p.storage { measurement_closed = closed } })
      → let w : Storage = record p.storage { measurement_closed = closed } in
        IsFlowing start (record p {
          storage = storage_measurement to_json turn w;
          saved = saved_with to_json turn w p.saved;
        })
  unfolding storage_measurement saved_with
  turn-IsFlowing true turn p sane h = record {
    valid = h.valid;
    in_order = h.in_order;
    flow = h.flow;
    opened = h.opened;
    delivered = h.delivered;
  }
  turn-IsFlowing false (measured m a) p (steps, fresh) h =
      saved-IsFlowing to_json start m a _ (gateway_storage_save to_json m a p.storage.db) h (
        save-IsAppended to_json start m a p.saved p.sent p.storage.db (h.valid, h.in_order) steps
          fresh)
  turn-IsFlowing false no_measurement p sane h = record {
    valid = h.valid;
    in_order = h.in_order;
    flow = h.flow;
    opened = h.opened;
    delivered = h.delivered;
  }
  turn-IsFlowing false measurements_closed p sane h = record {
    valid = h.valid;
    in_order = h.in_order;
    flow = h.flow;
    opened = h.opened;
    delivered = h.delivered;
  }
  turn-IsFlowing false measurement_error p sane h = record {
    valid = h.valid;
    in_order = h.in_order;
    flow = h.flow;
    opened = h.opened;
    delivered = h.delivered;
  }

  pub measurement-IsFlowing :
      (turn : MeasurementTurn Double) (p : Pipeline)
      → IsSaneMeasurement turn p.storage.db
      → IsFlowing start p
      → IsFlowing start (move to_json (measurement turn) p)
  unfolding move
  measurement-IsFlowing turn p sane h =
      if_both (IsFlowing start) (is_at at_measurements p.storage.phase) _ p
        (λ e. turn-IsFlowing p.storage.measurement_closed turn p sane h) (λ e. h)

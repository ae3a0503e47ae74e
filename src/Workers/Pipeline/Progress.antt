-- ===== src/Workers/Pipeline/Progress.antt =====
-- A round of the storage worker and the MQTT worker in which nothing fails.
use edgevision_gateway.Common.{
  ℕ, ◌≡◌, refl, sym, ap, subst, ◌∙◌, Bool, true, false, Option, none, some, List, [], ◌∷◌, ◌++◌,
  ltb,
}
use edgevision_gateway.Common.Int.{ℤ, pos, leb_ℤ}
use edgevision_gateway.Domain.Measurement.{Measurement}
use edgevision_gateway.Storage.Result.{ok, Stmt, Query}
use edgevision_gateway.Storage.Tables.{Database, update_where, set_sent}
use edgevision_gateway.Storage.Tables.Pending.{queue_of}
use edgevision_gateway.Storage.Tables.Updates.{queue-set_sent}
use edgevision_gateway.Storage.Outbox.{
  Json, OutboxItem, CopyAnswers, outbox_store_read_earliest_pending, outbox_store_mark_sent,
}
use edgevision_gateway.Storage.Outbox.Reads.{IsValid, IsFine, IsAnswer, read-IsAnswer}
use edgevision_gateway.Storage.Outbox.Steps.{IsFineStmt, mark_sent_fine}
use edgevision_gateway.Workers.Pipeline.{
  publish_ok, Report, Phase, at_control, at_results, take_one, put_one, at_schedule,
  at_measurements, no_request, storage_control, applied, gateway_storage_apply_report, after_report,
  storage_results, scheduled, offered, gateway_storage_schedule_delivery, loop_test, after_schedule,
  storage_schedule, fetching, publisher_fetch, report_of, publisher_publish, publisher_report,
  closed_at_end,
}
use edgevision_gateway.Workers.Pipeline.Moves.{
  Attempt, Pipeline, Move, control, results, schedule, fetch, publish, report_back, sent_with,
  results_move, schedule_move, fetch_move, publish_move, report_move, move, run,
}

-- The delivery of one entry, with the monotonic time, what SQLite and malloc answer, and the time of the broker's answer.
abbrev pub round : {Double : Type 0} → ℕ → Query → CopyAnswers → Stmt → ℤ → List (Move Double)
round now_ms q c s sent_at_ms =
    schedule false (some now_ms) q c false
    ∷ fetch false
    ∷ publish true publish_ok (some sent_at_ms)
    ∷ report_back false false
    ∷ control no_request
    ∷ results false s none
    ∷ []

-- The MQTT worker waits for a job, or its report is in the queue of results.
abbrev exchanging :
    Bool
    → Phase
    → Bool
    → ℕ
    → Database
    → Option OutboxItem
    → Option Report
    → List ℕ
    → List ℕ
    → List Attempt
    → Pipeline
exchanging measurement_closed phase inflight retry_not_before_ms db job report saved sent attempts =
    record {
      storage = record {
        phase = phase;
        measurement_closed = measurement_closed;
        result_closed = false;
        delivery_inflight = inflight;
        retry_not_before_ms = retry_not_before_ms;
        db = db;
      };
      delivery = record { item = job; is_closed = false };
      publisher = fetching;
      results = record { item = report; is_closed = false };
      saved = saved;
      sent = sent;
      attempts = attempts;
    }

-- Nothing is under way, and the workers are not told to stop.
abbrev pub waiting : Bool → Phase → ℕ → Database → List ℕ → List ℕ → List Attempt → Pipeline
waiting measurement_closed phase retry_not_before_ms db =
    exchanging measurement_closed phase false retry_not_before_ms db none none

module _ {Double : Type 0} (to_json : Measurement Double → Json) (now_ms : ℕ) (q : Query)
    (c : CopyAnswers) (s : Stmt) (sent_at_ms : ℤ) (db : Database) (saved sent : List ℕ)
    (attempts : List Attempt) (retry_not_before_ms : ℕ) where
  schedule_round :
      (measurement_closed : Bool) (item : OutboxItem)
      → ltb now_ms retry_not_before_ms ≡ false
      → outbox_store_read_earliest_pending true q c db ≡ (ok, some item)
      → move to_json
          (schedule false (some now_ms) q c false)
          (waiting measurement_closed at_schedule retry_not_before_ms db saved sent attempts)
        ≡ exchanging measurement_closed at_control true retry_not_before_ms db
            (some item)
            none
            saved
            sent
            attempts
  unfolding move schedule_move put_one scheduled offered gateway_storage_schedule_delivery loop_test
      after_schedule storage_schedule
  schedule_round true item due read = rw (due, read) refl
  schedule_round false item due read = rw (due, read) refl

  publish_round :
      (measurement_closed : Bool) (item : OutboxItem)
      → run to_json
          (fetch false
            ∷ publish true publish_ok (some sent_at_ms)
            ∷ report_back false false
            ∷ control no_request
            ∷ [])
          (exchanging measurement_closed at_control true retry_not_before_ms db
            (some item)
            none
            saved
            sent
            attempts)
        ≡ exchanging measurement_closed at_results true retry_not_before_ms db none
            (some (record {
              outbox_id = item.id;
              publish_result = publish_ok;
              sent_at_ms = sent_at_ms;
            }))
            saved
            sent
            (attempts ++ record { id = item.id; is_ok = true } ∷ [])
  unfolding run move fetch_move publish_move report_move take_one put_one storage_control
      publisher_fetch report_of publisher_publish publisher_report closed_at_end
  publish_round measurement_closed item = refl

  reported_round :
      (id : ℕ) (after : Database)
      → leb_ℤ sent_at_ms (pos 0) ≡ false
      → outbox_store_mark_sent true s id sent_at_ms db ≡ (ok, after)
      → gateway_storage_apply_report s
          (record { outbox_id = id; publish_result = publish_ok; sent_at_ms = sent_at_ms })
          db
        ≡ (some false, after)
  unfolding gateway_storage_apply_report applied
  reported_round id after dated mark = rw (dated, mark) refl

  results_round :
      (measurement_closed : Bool) (id : ℕ) (after : Database) (more : List Attempt)
      → gateway_storage_apply_report s
          (record { outbox_id = id; publish_result = publish_ok; sent_at_ms = sent_at_ms })
          db
        ≡ (some false, after)
      → move to_json (results false s none) (
          exchanging measurement_closed at_results true retry_not_before_ms db none
            (some (record { outbox_id = id; publish_result = publish_ok; sent_at_ms = sent_at_ms }))
            saved
            sent
            more)
        ≡ waiting measurement_closed at_measurements 0 after saved (sent ++ id ∷ []) more
  unfolding move results_move sent_with take_one after_report storage_results
  results_round measurement_closed id after more reported =
      let p : Pipeline =
        exchanging measurement_closed at_results true retry_not_before_ms db none none saved sent
          more in
      ap
        (λ (x : Option Bool × Database). record p {
          storage = after_report none x p.storage;
          sent = elim x.0 [ some retry ↦ sent ++ id ∷ [] | none ↦ sent ];
        })
        reported

  round_lem :
      (measurement_closed : Bool) (item : OutboxItem) (after : Database)
      → ltb now_ms retry_not_before_ms ≡ false
      → outbox_store_read_earliest_pending true q c db ≡ (ok, some item)
      → leb_ℤ sent_at_ms (pos 0) ≡ false
      → outbox_store_mark_sent true s item.id sent_at_ms db ≡ (ok, after)
      → run to_json
          (round now_ms q c s sent_at_ms)
          (waiting measurement_closed at_schedule retry_not_before_ms db saved sent attempts)
        ≡ waiting measurement_closed at_measurements 0 after saved
            (sent ++ item.id ∷ [])
            (attempts ++ record { id = item.id; is_ok = true } ∷ [])
  unfolding run
  round_lem measurement_closed item after due read dated mark =
      ap
        (run to_json (
          fetch false
          ∷ publish true publish_ok (some sent_at_ms)
          ∷ report_back false false
          ∷ control no_request
          ∷ results false s none
          ∷ []))
        (schedule_round measurement_closed item due read)
      ∙ ap (move to_json (results false s none)) (publish_round measurement_closed item)
      ∙ results_round measurement_closed item.id after _ (reported_round item.id after dated mark)

  -- While the workers run and nothing is under way, the time of a retry has come, the clock reads a time after the epoch and no call fails: the storage worker
  -- schedules the entry at the head of the queue, the MQTT worker publishes it and reports back, and behind
  -- the six steps of this the entry is marked as sent and off the queue, the rest of the queue and the saved ones
  -- are as they were, and nothing is under way.
  pub round-progress :
      (measurement_closed : Bool) (id : ℕ) (later : List ℕ)
      → IsValid db
      → queue_of db.outbox ≡ id ∷ later
      → ltb now_ms retry_not_before_ms ≡ false
      → leb_ℤ sent_at_ms (pos 0) ≡ false
      → IsFine q c
      → IsFineStmt s
      → (after : Database) × (run to_json
            (round now_ms q c s sent_at_ms)
            (waiting measurement_closed at_schedule retry_not_before_ms db saved sent attempts)
          ≡ waiting measurement_closed at_measurements 0 after saved
              (sent ++ id ∷ [])
              (attempts ++ record { id = id; is_ok = true } ∷ []))
        × (queue_of after.outbox ≡ later)
  round-progress measurement_closed id later v at due dated fine fine_stmt =
      let (item, read, same) =
        subst (λ l. IsAnswer l (outbox_store_read_earliest_pending true q c db)) at
          (read-IsAnswer q c db v fine) in
      let mark = mark_sent_fine s id sent_at_ms db later fine_stmt at in
      (
        record db { outbox = update_where id (set_sent sent_at_ms) db.outbox },
        rw (sym same) (round_lem measurement_closed item _ due read dated (rw same mark)),
        queue-set_sent id 0 sent_at_ms db.outbox later v.ascending at,
      )

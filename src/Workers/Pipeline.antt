-- ===== src/Workers/Pipeline.antt =====
-- The storage worker and the MQTT worker of core/gateway_workers.c, with the two queues of one place between
-- them. delivery_queue and result_queue appear as what modules/blocking_queue promises of a queue with
-- capacity 1; a call of the queue is one step, and the threads take their steps in any order.
pub mod Moves
pub mod Flow
pub mod Reports
pub mod Publishing
pub mod Turns
pub mod Storing
pub mod Scheduling
pub mod Delivery
pub mod Progress
mod Tests
use edgevision_gateway.Common.Text.{c_string}
use edgevision_gateway.Common.{
  ℕ, ◌+◌, Bool, true, false, not, ◌&&◌, ◌||◌, Option, none, some, List, [], ◌∷◌, ◌++◌, length, ltb,
  leb, if◌then◌else◌,
}
use edgevision_gateway.Common.Int.{ℤ, pos, leb_ℤ}
use edgevision_gateway.Domain.Measurement.{Measurement}
use edgevision_gateway.Gateway.Interval.Digits.{decimal_text}
use edgevision_gateway.Storage.Result.{StoreResult, ok, empty, Stmt, Query}
use edgevision_gateway.Storage.Tables.{Database}
use edgevision_gateway.Storage.Outbox.{
  Json, SaveAnswers, Connection, outbox_store_save_measurement, OutboxItem, CopyAnswers,
  outbox_store_read_earliest_pending, outbox_store_mark_sent, outbox_store_record_delivery_failure,
}
use edgevision_gateway.Storage.Outbox.Atomic.{committed}
use edgevision_gateway.Workers.Commands.{ControlRequest, serve_control}

-- mqtt_publisher_result_t: 0, or the negative number of an error without its sign.
pub data PublishResult : Type 0 where
  publish_ok : PublishResult
  publish_error : ℕ → PublishResult

-- gateway_delivery_report_t.
pub record Report : Type 0 where
  pub outbox_id : ℕ
  pub publish_result : PublishResult
  pub sent_at_ms : ℤ

-- A queue of one place.
pub record Slot (A : Type 0) : Type 0 where
  pub item : Option A
  pub is_closed : Bool

-- bq_pop with a timeout that passes, and bq_push.
pub data Taken (A : Type 0) : Type 0 where
  taken : A → Taken A
  take_timeout take_closed take_system : Taken A

pub data Put : Type 0 where
  put_ok put_timeout put_closed put_system : Put

-- `fails` is BQ_SYSTEM, which leaves the queue alone.
pub take_one : {A : Type 0} → Bool → Slot A → Taken A × Slot A
take_one true q = (take_system, q)
take_one false q = elim q.item [
  | some a ↦ (taken a, record q { item = none })
  | none ↦ (if q.is_closed then take_closed else take_timeout, q)
]

pub put_one : {A : Type 0} → Bool → A → Slot A → Put × Slot A
put_one true a q = (put_system, q)
put_one false a q =
    if q.is_closed
    then (put_closed, q)
    else elim q.item [ some b ↦ (put_timeout, q) | none ↦ (put_ok, record q { item = some a }) ]

-- Where gateway_storage_worker stands in its loop, or that it has returned.
pub data Phase : Type 0 where
  at_control at_results at_measurements at_schedule ended : Phase

-- The variables of gateway_storage_worker, with the database behind the store.
pub record Storage : Type 0 where
  pub phase : Phase
  pub measurement_closed : Bool
  pub result_closed : Bool
  pub delivery_inflight : Bool
  pub retry_not_before_ms : ℕ
  pub db : Database

-- The pop of a control request; a request with what SQLite answers to it, and whether its result is
-- pushed.
pub data ControlTurn : Type 0 where
  control_request : ControlRequest → Stmt → Query → Bool → ControlTurn
  no_request control_error : ControlTurn

pub storage_control : ControlTurn → Storage → Storage
storage_control (control_request request s q pushed) w =
    let served = serve_control s q request w.db in
    record w { phase = if pushed then at_results else ended; db = served.1 }
storage_control no_request w = record w { phase = at_results }
storage_control control_error w = record w { phase = ended }

abbrev pub publish_failed_word : List ℕ
publish_failed_word =
    109 ∷ 113 ∷ 116 ∷ 116 ∷ 32 ∷ 112 ∷ 117 ∷ 98 ∷ 108 ∷ 105 ∷ 115 ∷ 104 ∷ 32 ∷ 102 ∷ 97 ∷ 105 ∷ 108
    ∷ 101 ∷ 100 ∷ 58 ∷ 32 ∷ []

-- The text for a failed delivery; the enumerators are 0 or negative.
pub error_text : ℕ → List ℕ
error_text n = publish_failed_word ++ 45 ∷ decimal_text n

-- 0 with `retry_needed`, or -1.
pub applied : Bool → StoreResult × Database → Option Bool × Database
applied retry_needed (ok, db) = (some retry_needed, db)
applied retry_needed (result, db) = (none, db)

pub gateway_storage_apply_report : Stmt → Report → Database → Option Bool × Database
gateway_storage_apply_report s report db = elim report.publish_result [
  | publish_ok ↦
      if leb_ℤ report.sent_at_ms (pos 0)
      then (none, db)
      else applied false (outbox_store_mark_sent true s report.outbox_id report.sent_at_ms db)
  | publish_error n ↦
      if leb 64 (length (error_text n))
      then (none, db)
      else applied true
          (outbox_store_record_delivery_failure true s report.outbox_id (error_text n) db)
]

-- Behind the report, with the monotonic clock, if it is read.
pub after_report : Option ℕ → Option Bool × Database → Storage → Storage
after_report clock (none, db) w = record w { phase = ended; db = db }
after_report clock (some false, db) w = record w {
  phase = at_measurements;
  delivery_inflight = false;
  retry_not_before_ms = 0;
  db = db;
}
after_report none (some true, db) w = record w { phase = ended; delivery_inflight = false; db = db }
after_report (some now_ms) (some true, db) w = record w {
  phase = at_measurements;
  delivery_inflight = false;
  retry_not_before_ms = now_ms + 1000;
  db = db;
}

pub storage_results : Stmt → Option ℕ → Taken Report → Storage → Storage
storage_results s clock (taken report) w =
    after_report clock (gateway_storage_apply_report s report w.db) w
storage_results s clock take_closed w = record w {
  phase = at_measurements;
  result_closed = true;
  delivery_inflight = false;
}
storage_results s clock take_timeout w = record w { phase = at_measurements }
storage_results s clock take_system w = record w { phase = ended }

abbrev pub topic_head : List ℕ
topic_head =
    101 ∷ 100 ∷ 103 ∷ 101 ∷ 118 ∷ 105 ∷ 115 ∷ 105 ∷ 111 ∷ 110 ∷ 47 ∷ 118 ∷ 49 ∷ 47 ∷ 100 ∷ 101 ∷ 118
    ∷ 105 ∷ 99 ∷ 101 ∷ 115 ∷ 47 ∷ []

abbrev pub topic_tail : List ℕ
topic_tail = 47 ∷ 109 ∷ 101 ∷ 97 ∷ 115 ∷ 117 ∷ 114 ∷ 101 ∷ 109 ∷ 101 ∷ 110 ∷ 116 ∷ 115 ∷ []

-- A call with the answers of SQLite: whether it returns 0, and the database.
pub stored : StoreResult × Connection → Bool × Database
stored (ok, c) = (true, committed c)
stored (result, c) = (false, committed c)

-- The topic under which a measurement is kept.
pub topic_of : {Double : Type 0} → Measurement Double → List ℕ
topic_of m = topic_head ++ c_string m.device_id ++ topic_tail

pub gateway_storage_save :
    {Double : Type 0}
    → (Measurement Double → Json)
    → Measurement Double
    → SaveAnswers
    → Database
    → Bool × Database
gateway_storage_save to_json m a db =
    if leb 256 (length (topic_of m))
    then (false, db)
    else stored (outbox_store_save_measurement to_json true (some m) (topic_of m) a db)

-- The pop of a measurement.
pub data MeasurementTurn (Double : Type 0) : Type 0 where
  measured : Measurement Double → SaveAnswers → MeasurementTurn Double
  no_measurement measurements_closed measurement_error : MeasurementTurn Double

-- Behind the save.
pub after_save : Bool × Database → Storage → Storage
after_save (true, db) w = record w { phase = at_schedule; db = db }
after_save (false, db) w = record w { phase = ended; db = db }

pub storage_measurement :
    {Double : Type 0} → (Measurement Double → Json) → MeasurementTurn Double → Storage → Storage
storage_measurement to_json turn w =
    if w.measurement_closed then record w { phase = at_schedule } else elim turn [
      | measured m a ↦ after_save (gateway_storage_save to_json m a w.db) w
      | no_measurement ↦ record w { phase = at_schedule }
      | measurements_closed ↦ record w { phase = at_schedule; measurement_closed = true }
      | measurement_error ↦ record w { phase = ended }
    ]

-- Behind the push of a job: a return of 0, with `delivery_inflight` and the queue, or of -1. A job that is not
-- taken is freed.
pub scheduled : Put × Slot OutboxItem → Option Bool × Slot OutboxItem
scheduled (put_ok, q) = (some true, q)
scheduled (put_timeout, q) = (some false, q)
scheduled (put_closed, q) = (some false, q)
scheduled (put_system, q) = (none, q)

-- Behind the read: OUTBOX_STORE_OK comes with an item, and no other result does.
pub offered :
    Bool → StoreResult × Option OutboxItem → Slot OutboxItem → Option Bool × Slot OutboxItem
offered fails (result, some item) q = scheduled (put_one fails item q)
offered fails (empty, none) q = (some false, q)
offered fails (result, none) q = (none, q)

pub gateway_storage_schedule_delivery :
    Query → CopyAnswers → Bool → Database → Slot OutboxItem → Option Bool × Slot OutboxItem
gateway_storage_schedule_delivery s c fails db q =
    offered fails (outbox_store_read_earliest_pending true s c db) q

-- The test of the loop.
pub loop_test : Storage → Storage
loop_test w = record w {
  phase = if w.measurement_closed && w.result_closed then ended else at_control;
}

pub after_schedule : Option Bool × Slot OutboxItem → Storage → Storage × Slot OutboxItem
after_schedule (none, q) w = (record w { phase = ended }, q)
after_schedule (some true, q) w = (loop_test (record w { delivery_inflight = true }), q)
after_schedule (some false, q) w = (loop_test w, q)

pub storage_schedule :
    Bool
    → Option ℕ
    → Query
    → CopyAnswers
    → Bool
    → Storage
    → Slot OutboxItem
    → Storage × Slot OutboxItem
storage_schedule should_stop clock s c fails w q =
    if w.delivery_inflight || should_stop then (loop_test w, q) else elim clock [
      | none ↦ (record w { phase = ended }, q)
      | some now_ms ↦
          if ltb now_ms w.retry_not_before_ms
          then (loop_test w, q)
          else after_schedule (gateway_storage_schedule_delivery s c fails w.db q) w
    ]

-- Where gateway_mqtt_worker stands: at bq_pop, with a job, with the report on a job, or behind its loop.
pub data Publisher : Type 0 where
  fetching done : Publisher
  publishing : OutboxItem → Publisher
  reporting : Report → Publisher

-- bq_pop waits without a timeout.
pub publisher_fetch : Taken OutboxItem → Publisher
publisher_fetch (taken item) = publishing item
publisher_fetch take_timeout = fetching
publisher_fetch take_closed = done
publisher_fetch take_system = done

-- The report on an item, with CLOCK_REALTIME, if it is read. 3 is MQTT_PUBLISHER_LIBRARY_ERROR.
pub report_of : OutboxItem → PublishResult → Option ℤ → Report
report_of item (publish_error n) clock = record {
  outbox_id = item.id;
  publish_result = publish_error n;
  sent_at_ms = pos 0;
}
report_of item publish_ok none = record {
  outbox_id = item.id;
  publish_result = publish_error 3;
  sent_at_ms = pos 0;
}
report_of item publish_ok (some now_ms) = record {
  outbox_id = item.id;
  publish_result = publish_ok;
  sent_at_ms = now_ms;
}

-- `is_made` is whether gateway_create_delivery_payload makes a payload.
pub publisher_publish : Bool → PublishResult → Option ℤ → OutboxItem → Publisher
publisher_publish false result clock item = done
publisher_publish true result clock item = reporting (report_of item result clock)

-- Behind bq_push of a report; `failed` is gateway_workers_failed.
pub publisher_report : Bool → Report → Put → Publisher
publisher_report failed report put_ok = fetching
publisher_report failed report put_closed = done
publisher_report failed report put_system = done
publisher_report failed report put_timeout = if failed then done else reporting report

-- bq_close, which gateway_mqtt_worker calls on the results when it ends.
pub closed_at_end : Publisher → Slot Report → Slot Report
closed_at_end done q = record q { is_closed = true }
closed_at_end publisher q = q

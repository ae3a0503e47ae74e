-- ===== src/Workers/Pipeline/Moves.antt =====
-- The steps of the two threads of Workers.Pipeline and of those around them, in any order, with a record of
-- what was saved, published and marked as sent.
use edgevision_gateway.Common.{
  ℕ, Bool, true, false, Option, none, some, List, [], ◌∷◌, ◌++◌, if◌then◌else◌,
}
use edgevision_gateway.Common.Int.{ℤ}
use edgevision_gateway.Domain.Measurement.{Measurement}
use edgevision_gateway.Storage.Result.{Stmt, Query}
use edgevision_gateway.Storage.Tables.{Database}
use edgevision_gateway.Storage.Outbox.{Json, OutboxItem, CopyAnswers}
use edgevision_gateway.Workers.Pipeline.{
  PublishResult, publish_ok, publish_error, Report, Slot, Taken, taken, Put, take_one, put_one,
  Phase, at_control, at_results, at_measurements, at_schedule, Storage, ControlTurn,
  storage_control, gateway_storage_apply_report, storage_results, gateway_storage_save,
  MeasurementTurn, measured, storage_measurement, storage_schedule, Publisher, fetching, done,
  publishing, reporting, publisher_fetch, publisher_publish, publisher_report, closed_at_end,
}

-- A call of mqtt_publisher_publish_json: the entry, and whether it returned MQTT_PUBLISHER_OK.
pub record Attempt : Type 0 where
  pub id : ℕ
  pub is_ok : Bool

-- The state of both threads and their queues; then the ids of the entries that were saved and those
-- marked as sent, and the attempts to publish, each in order.
pub record Pipeline : Type 0 where
  pub storage : Storage
  pub delivery : Slot OutboxItem
  pub publisher : Publisher
  pub results : Slot Report
  pub saved : List ℕ
  pub sent : List ℕ
  pub attempts : List Attempt

abbrev pub new_pipeline : Database → Pipeline
new_pipeline db = record {
  storage = record {
    phase = at_control;
    measurement_closed = false;
    result_closed = false;
    delivery_inflight = false;
    retry_not_before_ms = 0;
    db = db;
  };
  delivery = record { item = none; is_closed = false };
  publisher = fetching;
  results = record { item = none; is_closed = false };
  saved = [];
  sent = [];
  attempts = [];
}

-- One step of gateway_storage_worker, of gateway_mqtt_worker, or of gateway_workers_run, which closes
-- delivery_queue, and result_queue once it has joined the MQTT worker; with what the step meets. A worker that
-- was not started is one whose first pop fails.
pub data Move (Double : Type 0) : Type 0 where
  control : ControlTurn → Move Double
  results : Bool → Stmt → Option ℕ → Move Double
  measurement : MeasurementTurn Double → Move Double
  schedule : Bool → Option ℕ → Query → CopyAnswers → Bool → Move Double
  fetch : Bool → Move Double
  publish : Bool → PublishResult → Option ℤ → Move Double
  report_back : Bool → Bool → Move Double
  close_delivery close_results : Move Double

abbrev pub is_at : Phase → Phase → Bool
is_at at_control at_control = true
is_at at_results at_results = true
is_at at_measurements at_measurements = true
is_at at_schedule at_schedule = true
is_at _ _ = false

-- The entries marked as sent behind a report.
unfoldable pub sent_with : Stmt → Database → Taken Report → List ℕ → List ℕ
sent_with s db (taken report) sent = elim report.publish_result [
  | publish_error n ↦ sent
  | publish_ok ↦ elim (gateway_storage_apply_report s report db).0 [
    | some retry ↦ sent ++ report.outbox_id ∷ []
    | none ↦ sent
  ]
]
sent_with s db t sent = sent

unfoldable pub results_move : Stmt → Option ℕ → Taken Report × Slot Report → Pipeline → Pipeline
results_move s clock (t, q) p = record p {
  storage = storage_results s clock t p.storage;
  results = q;
  sent = sent_with s p.storage.db t p.sent;
}

abbrev pub saved_by : Bool → ℕ → List ℕ → List ℕ
saved_by true id saved = saved ++ id ∷ []
saved_by false id saved = saved

-- The entries saved behind a turn.
unfoldable pub saved_with :
    {Double : Type 0}
    → (Measurement Double → Json)
    → MeasurementTurn Double
    → Storage
    → List ℕ
    → List ℕ
saved_with to_json turn w saved = if w.measurement_closed then saved else elim turn [
  | measured m a ↦ saved_by (gateway_storage_save to_json m a w.db).0 a.outbox_id saved
  | _ ↦ saved
]

unfoldable pub schedule_move : Storage × Slot OutboxItem → Pipeline → Pipeline
schedule_move (w, q) p = record p { storage = w; delivery = q }

unfoldable pub fetch_move : Taken OutboxItem × Slot OutboxItem → Pipeline → Pipeline
fetch_move (t, q) p = record p {
  delivery = q;
  publisher = publisher_fetch t;
  results = closed_at_end (publisher_fetch t) p.results;
}

abbrev pub is_success : PublishResult → Bool
is_success publish_ok = true
is_success (publish_error n) = false

unfoldable pub publish_move : Bool → PublishResult → Option ℤ → OutboxItem → Pipeline → Pipeline
publish_move is_made result clock item p = record p {
  publisher = publisher_publish is_made result clock item;
  results = closed_at_end (publisher_publish is_made result clock item) p.results;
  attempts =
      if is_made
      then p.attempts ++ record { id = item.id; is_ok = is_success result } ∷ []
      else p.attempts;
}

unfoldable pub report_move : Bool → Report → Put × Slot Report → Pipeline → Pipeline
report_move failed report (r, q) p = record p {
  publisher = publisher_report failed report r;
  results = closed_at_end (publisher_report failed report r) q;
}

-- A step that the thread does not stand before leaves all as it is.
unfoldable pub move :
    {Double : Type 0} → (Measurement Double → Json) → Move Double → Pipeline → Pipeline
move to_json (control turn) p =
    if is_at at_control p.storage.phase
    then record p { storage = storage_control turn p.storage }
    else p
move to_json (results fails s clock) p =
    if is_at at_results p.storage.phase
    then results_move s clock (take_one fails p.results) p
    else p
move to_json (measurement turn) p =
    if is_at at_measurements p.storage.phase
    then record p {
      storage = storage_measurement to_json turn p.storage;
      saved = saved_with to_json turn p.storage p.saved;
    }
    else p
move to_json (schedule should_stop clock s c fails) p =
    if is_at at_schedule p.storage.phase
    then schedule_move (storage_schedule should_stop clock s c fails p.storage p.delivery) p
    else p
move to_json (fetch fails) p = elim p.publisher [
  | fetching ↦ fetch_move (take_one fails p.delivery) p
  | _ ↦ p
]
move to_json (publish is_made result clock) p = elim p.publisher [
  | publishing item ↦ publish_move is_made result clock item p
  | _ ↦ p
]
move to_json (report_back fails failed) p = elim p.publisher [
  | reporting report ↦ report_move failed report (put_one fails report p.results) p
  | _ ↦ p
]
move to_json close_delivery p = record p { delivery = record p.delivery { is_closed = true } }
move to_json close_results p = elim p.publisher [
  | done ↦ record p { results = record p.results { is_closed = true } }
  | _ ↦ p
]

unfoldable pub run :
    {Double : Type 0} → (Measurement Double → Json) → List (Move Double) → Pipeline → Pipeline
run to_json [] p = p
run to_json (m ∷ moves) p = run to_json moves (move to_json m p)

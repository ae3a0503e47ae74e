-- ===== src/Workers/Pipeline/Tests.antt =====
-- Two measurements, the first published at the second attempt.
use edgevision_gateway.Common.Text.{c_string}
use edgevision_gateway.Common.{
  ℕ, ◌≡◌, refl, sym, ap, subst, ◌∙◌, arith, true, false, none, some, List, [], ◌∷◌, ◌++◌,
}
use edgevision_gateway.Common.Int.{pos}
use edgevision_gateway.Domain.Measurement.{Measurement}
use edgevision_gateway.Gateway.Interval.Digits.{digits}
use edgevision_gateway.Storage.Result.{unbound, after_finalize}
use edgevision_gateway.Storage.Tables.{
  Database, payload_of, select_earliest, earlier, joined_row, update_where, count_where, set_sent,
  set_failure,
}
use edgevision_gateway.Storage.Tables.Pending.{queue_of}
use edgevision_gateway.Storage.Outbox.{
  Json, text, with_measurement, with_entry, outbox_store_save_measurement,
  outbox_store_read_earliest_pending, outbox_store_mark_sent, outbox_store_record_delivery_failure,
  prepare_save_payload, save_payload, save_rows, save_entry, save_commit, insert_fails,
  read_finalized, read_row, copy_count, copy_texts, copy_fails, update_entry, counted,
}
use edgevision_gateway.Storage.Outbox.Reads.{IsValid}
use edgevision_gateway.Storage.Outbox.Steps.{IsQuiet}
use edgevision_gateway.Storage.Outbox.Tests.{
  done, fine_query, fine_copy, answers, one_saved, one-IsValid,
}
use edgevision_gateway.Workers.Pipeline.{
  publish_ok, publish_error, at_measurements, at_schedule, Phase, take_one, put_one, no_request,
  storage_control, error_text, applied, gateway_storage_apply_report, after_report, storage_results,
  stored, topic_of, gateway_storage_save, measured, no_measurement, after_save, storage_measurement,
  scheduled, offered, gateway_storage_schedule_delivery, loop_test, after_schedule,
  storage_schedule, publisher_fetch, report_of, publisher_publish, publisher_report, closed_at_end,
}
use edgevision_gateway.Workers.Pipeline.Moves.{
  Attempt, Pipeline, new_pipeline, Move, control, results, measurement, schedule, fetch, publish,
  report_back, sent_with, results_move, saved_with, schedule_move, fetch_move, publish_move,
  report_move, move, run,
}
use edgevision_gateway.Workers.Pipeline.Flow.{Delivered}
use edgevision_gateway.Workers.Pipeline.Progress.{round, waiting, round-progress}
use edgevision_gateway.Workers.Pipeline.Delivery.{
  AreSane, run-append, append-AreSane, run-Delivered,
}

abbrev number_reading : ℕ → Measurement ℕ
number_reading n = record {
  schema_version = 1;
  device_id = 100 ∷ 0 ∷ [];
  sequence = n;
  timestamp_ms = pos 5;
  metric = 109 ∷ 0 ∷ [];
  value = n;
  unit = 117 ∷ 0 ∷ [];
  quality = 0;
}

abbrev value_json : Measurement ℕ → Json
value_json m = text (123 ∷ m.value ∷ [])

abbrev first_turn : List (Move ℕ)
first_turn =
    control no_request
    ∷ results false done none
    ∷ measurement (measured (number_reading 8) (answers 2))
    ∷ []

-- A publication that fails.
abbrev second_turn : List (Move ℕ)
second_turn =
    schedule false (some 10) fine_query fine_copy false
    ∷ fetch false
    ∷ control no_request
    ∷ publish true (publish_error 3) none
    ∷ report_back false false
    ∷ results false done (some 20)
    ∷ []

-- One that succeeds.
abbrev third_turn : List (Move ℕ)
third_turn =
    measurement no_measurement
    ∷ schedule false (some 1020) fine_query fine_copy false
    ∷ fetch false
    ∷ publish true publish_ok (some (pos 9))
    ∷ report_back false false
    ∷ control no_request
    ∷ results false done (some 1100)
    ∷ []

abbrev two_saved : Database
two_saved =
    with_entry (answers 2) (topic_of (number_reading 8))
      (with_measurement (answers 2) (123 ∷ 8 ∷ []) one_saved)

abbrev once_failed : Database
once_failed = record two_saved {
  outbox = update_where 1 (set_failure (error_text 3)) two_saved.outbox;
}

abbrev first_sent : Database
first_sent = record once_failed { outbox = update_where 1 (set_sent (pos 9)) once_failed.outbox }

-- With nothing under way.
abbrev resting : Phase → ℕ → Database → List ℕ → List Attempt → Pipeline
resting phase retry_not_before_ms db sent attempts = record (new_pipeline db) {
  storage = record {
    phase = phase;
    measurement_closed = false;
    result_closed = false;
    delivery_inflight = false;
    retry_not_before_ms = retry_not_before_ms;
    db = db;
  };
  saved = 2 ∷ [];
  sent = sent;
  attempts = attempts;
}

run_first :
    run value_json first_turn (new_pipeline one_saved) ≡ resting at_schedule 0 two_saved [] []
unfolding run move results_move sent_with saved_with take_one storage_control storage_results stored
    topic_of c_string gateway_storage_save after_save storage_measurement
    outbox_store_save_measurement prepare_save_payload save_payload save_rows save_entry save_commit
    insert_fails unbound
run_first = refl

run_second :
    run value_json second_turn (resting at_schedule 0 two_saved [] [])
    ≡ resting at_measurements 1020 once_failed [] (record { id = 1; is_ok = false } ∷ [])
unfolding run move results_move sent_with saved_with schedule_move fetch_move publish_move
    report_move take_one put_one storage_control error_text applied gateway_storage_apply_report
    after_report storage_results stored topic_of gateway_storage_save after_save storage_measurement
    scheduled offered gateway_storage_schedule_delivery loop_test after_schedule storage_schedule
    publisher_fetch report_of publisher_publish publisher_report closed_at_end
    outbox_store_save_measurement prepare_save_payload save_payload save_rows save_entry save_commit
    insert_fails unbound outbox_store_read_earliest_pending read_finalized read_row copy_count
    copy_texts copy_fails outbox_store_record_delivery_failure update_entry counted after_finalize
    select_earliest earlier joined_row payload_of update_where count_where set_sent digits
    set_failure
run_second = refl

run_third :
    run value_json third_turn
      (resting at_measurements 1020 once_failed [] (record { id = 1; is_ok = false } ∷ []))
    ≡ resting at_measurements 0 first_sent
        (1 ∷ [])
        (record { id = 1; is_ok = false } ∷ record { id = 1; is_ok = true } ∷ [])
unfolding run move results_move sent_with saved_with schedule_move fetch_move publish_move
    report_move take_one put_one storage_control error_text applied gateway_storage_apply_report
    after_report storage_results stored topic_of gateway_storage_save after_save storage_measurement
    scheduled offered gateway_storage_schedule_delivery loop_test after_schedule storage_schedule
    publisher_fetch report_of publisher_publish publisher_report closed_at_end
    outbox_store_save_measurement prepare_save_payload save_payload save_rows save_entry save_commit
    insert_fails unbound outbox_store_read_earliest_pending read_finalized read_row copy_count
    copy_texts copy_fails outbox_store_mark_sent outbox_store_record_delivery_failure update_entry
    counted after_finalize select_earliest earlier joined_row payload_of update_where count_where
    set_sent digits set_failure
run_third = refl

quiet : IsQuiet done
quiet = record { stepped = λ e. omega (arith, e); finalized = λ e. refl }

first-AreSane : AreSane value_json first_turn (new_pipeline one_saved)
unfolding move results_move take_one storage_control storage_results payload_of
first-AreSane = (
  tt,
  (
    quiet,
    (
      (
        (λ e. omega (arith, e), λ e. omega (arith, e)),
        record { new_measurement = refl; new_entry = (omega arith, tt); digits = refl },
      ),
      tt,
    ),
  ),
)

second-AreSane : AreSane value_json second_turn (resting at_schedule 0 two_saved [] [])
second-AreSane = (tt, (tt, (tt, (tt, (tt, (quiet, tt))))))

third-AreSane :
    AreSane value_json third_turn
      (resting at_measurements 1020 once_failed [] (record { id = 1; is_ok = false } ∷ []))
third-AreSane = (tt, (tt, (tt, (tt, (tt, (tt, (quiet, tt)))))))

abbrev turns : List (Move ℕ)
turns = first_turn ++ second_turn ++ third_turn

turns-AreSane : AreSane value_json turns (new_pipeline one_saved)
turns-AreSane = append-AreSane value_json first_turn (second_turn ++ third_turn) _ first-AreSane (
    subst (AreSane value_json (second_turn ++ third_turn)) (sym run_first) (
      append-AreSane value_json second_turn third_turn (resting at_schedule 0 two_saved [] [])
        second-AreSane (subst (AreSane value_json third_turn) (sym run_second) third-AreSane)))

-- The first is marked behind the attempt that succeeds, and the second is left.
run-turns :
    run value_json turns (new_pipeline one_saved)
    ≡ resting at_measurements 0 first_sent
        (1 ∷ [])
        (record { id = 1; is_ok = false } ∷ record { id = 1; is_ok = true } ∷ [])
run-turns =
    run-append value_json first_turn (second_turn ++ third_turn) _
    ∙ ap (run value_json (second_turn ++ third_turn)) run_first
    ∙ run-append value_json second_turn third_turn _
    ∙ ap (run value_json third_turn) run_second
    ∙ run_third

run-Delivered_example :
    let behind : Pipeline = run value_json turns (new_pipeline one_saved) in
    IsValid behind.storage.db
    × (queue_of one_saved.outbox ++ behind.saved ≡ behind.sent ++ queue_of behind.storage.db.outbox)
    × Delivered (queue_of one_saved.outbox ++ behind.saved) behind.sent behind.attempts
run-Delivered_example = run-Delivered value_json turns one_saved one-IsValid turns-AreSane

round-progress_example :
    (after : Database) × (run value_json
        (round 10 fine_query fine_copy done (pos 9))
        (waiting false at_schedule 0 one_saved [] [] [])
      ≡ waiting false at_measurements 0 after [] (1 ∷ []) (record { id = 1; is_ok = true } ∷ []))
    × (queue_of after.outbox ≡ [])
round-progress_example =
    round-progress value_json 10 fine_query fine_copy done (pos 9) one_saved [] [] [] 0 false 1 []
      one-IsValid refl refl refl (refl, refl, refl, refl, refl, refl, refl, refl)
      (refl, refl, refl, refl, refl)

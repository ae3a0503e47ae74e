-- ===== src/Storage/Outbox/Tests.antt =====
-- Two measurements that are saved, the first of them delivered at the second attempt.
use edgevision_gateway.Common.{
  ℕ, ◌+◌, ◌≡◌, ◌≢◌, refl, ap, arith, true, false, none, some, List, [], ◌∷◌, ◌++◌, length, drop,
}
use edgevision_gateway.Common.Int.{pos}
use edgevision_gateway.Domain.Json.{JsonResult, measurement_from_json, object}
use edgevision_gateway.Domain.Json.RoundTrip.{as_reread, json-roundtrip}
use edgevision_gateway.Domain.Json.Tests.{
  numbers, sample, members, calls, sample-IsContract, sample-IsReadBack,
}
use edgevision_gateway.Storage.Outbox.Payload.{json_of_result, stored_json, saved-ReadsBack}
use edgevision_gateway.Storage.Result.{ok, Stmt, Query, unbound, after_finalize}
use edgevision_gateway.Storage.Tables.{
  Database, payload_of, select_earliest, earlier, joined_row, update_where, count_where, set_sent,
  set_failure,
}
use edgevision_gateway.Storage.Tables.Pending.{queue_of}
use edgevision_gateway.Storage.Outbox.{
  Json, text, idle, SaveAnswers, with_measurement, with_entry, in_range, OutboxItem, CopyAnswers,
  outbox_store_save_measurement, outbox_store_read_earliest_pending, outbox_store_mark_sent,
  outbox_store_record_delivery_failure, prepare_save_payload, save_payload, save_rows, save_entry,
  save_commit, insert_fails, read_finalized, read_row, copy_count, copy_texts, copy_fails,
  update_entry, counted, outbox_store_get_stats, outbox_store_save_interval,
  outbox_store_load_interval,
}
use edgevision_gateway.Storage.Outbox.Atomic.{IsSaved, save-IsSaved}
use edgevision_gateway.Storage.Outbox.Reads.{IsValid, IsAnswer, read-IsAnswer}
use edgevision_gateway.Storage.Outbox.Counts.{get_stats_lem}
use edgevision_gateway.Storage.Outbox.Interval.{interval-roundtrip}
use edgevision_gateway.Storage.Outbox.Steps.{IsFresh, save-IsValid}
use edgevision_gateway.Storage.Outbox.History.{Run, begin, save, deliver, fail, outbox-IsFifo}

abbrev pub done : Stmt
done = record { prepare = 0; bind_first = 0; bind_second = 0; step = 101; finalize = 0 }

abbrev pub fine_query : Query
fine_query = record { prepare = 0; step_error = none; finalize = 0 }

abbrev pub fine_copy : CopyAnswers
fine_copy = record {
  message_id_null = false;
  topic_null = none;
  topic_malloc = true;
  payload_null = none;
  payload_malloc = true;
}

abbrev digits : List ℕ
digits =
    48 ∷ 48 ∷ 48 ∷ 48 ∷ 48 ∷ 48 ∷ 48 ∷ 48 ∷ 48 ∷ 48 ∷ 48 ∷ 48 ∷ 48 ∷ 48 ∷ 48 ∷ 48 ∷ 48 ∷ 48 ∷ 48
    ∷ 48 ∷ 48 ∷ 48 ∷ 48 ∷ 48 ∷ 48 ∷ 48 ∷ 48 ∷ 48 ∷ 48 ∷ 48 ∷ 48 ∷ 48 ∷ []

abbrev pub answers : ℕ → SaveAnswers
answers id = record {
  begin_rc = 0;
  insert_measurement = done;
  measurement_id = id;
  insert_outbox = done;
  outbox_id = id;
  message_id = digits;
  commit_rc = 0;
  rollback_rc = 0;
}

-- The serialised form of a number, for the tests.
abbrev plain_json : ℕ → Json
plain_json n = text (123 ∷ n ∷ [])

abbrev topic : List ℕ
topic = 116 ∷ []

abbrev new_database : Database
new_database = record { measurements = []; outbox = []; interval_ms = none }

abbrev pub one_saved : Database
one_saved = with_entry (answers 1) topic (with_measurement (answers 1) (123 ∷ 7 ∷ []) new_database)

abbrev two_saved : Database
two_saved = with_entry (answers 2) topic (with_measurement (answers 2) (123 ∷ 8 ∷ []) one_saved)

new-IsValid : IsValid new_database
new-IsValid = record { ascending = tt; entries = tt; paired = refl }

ids_one : IsFresh (answers 1) new_database
unfolding payload_of
ids_one = record { new_measurement = refl; new_entry = tt; digits = refl }

ids_two : IsFresh (answers 2) one_saved
unfolding payload_of
ids_two = record { new_measurement = refl; new_entry = (omega arith, tt); digits = refl }

pub one-IsValid : IsValid one_saved
one-IsValid = save-IsValid (answers 1) topic (123 ∷ 7 ∷ []) new_database ids_one new-IsValid

two-IsValid : IsValid two_saved
two-IsValid = save-IsValid (answers 2) topic (123 ∷ 8 ∷ []) one_saved ids_two one-IsValid

save_one :
    outbox_store_save_measurement plain_json true (some 7) topic (answers 1) new_database
    ≡ (ok, idle one_saved)
unfolding outbox_store_save_measurement prepare_save_payload save_payload save_rows save_entry
    save_commit insert_fails unbound
save_one = refl

save_two :
    outbox_store_save_measurement plain_json true (some 8) topic (answers 2) one_saved
    ≡ (ok, idle two_saved)
unfolding outbox_store_save_measurement prepare_save_payload save_payload save_rows save_entry
    save_commit insert_fails unbound
save_two = refl

abbrev first_item : ℕ → OutboxItem
first_item attempts = record {
  id = 1;
  measurement_id = 1;
  attempt_count = attempts;
  message_id = digits;
  topic = topic;
  payload_json = 123 ∷ 7 ∷ [];
}

read_first :
    outbox_store_read_earliest_pending true fine_query fine_copy two_saved
    ≡ (ok, some (first_item 0))
unfolding outbox_store_read_earliest_pending read_finalized read_row copy_count copy_texts
    copy_fails select_earliest earlier joined_row payload_of
read_first = refl

-- Behind a failed delivery of the first.
abbrev once_failed : Database
once_failed = record two_saved {
  outbox =
      record {
        id = 1;
        measurement_id = 1;
        message_id = digits;
        topic = topic;
        is_sent = false;
        attempt_count = pos 1;
        last_error = some (69 ∷ []);
        sent_at_ms = none;
      }
      ∷ drop 1 two_saved.outbox;
}

fail_first :
    outbox_store_record_delivery_failure true done 1 (69 ∷ []) two_saved ≡ (ok, once_failed)
unfolding outbox_store_record_delivery_failure update_entry counted unbound after_finalize
    update_where count_where set_failure
fail_first = refl

read_again :
    outbox_store_read_earliest_pending true fine_query fine_copy once_failed
    ≡ (ok, some (first_item 1))
unfolding outbox_store_read_earliest_pending read_finalized read_row copy_count copy_texts
    copy_fails select_earliest earlier joined_row payload_of
read_again = refl

abbrev first_sent : Database
first_sent = record once_failed {
  outbox =
      record {
        id = 1;
        measurement_id = 1;
        message_id = digits;
        topic = topic;
        is_sent = true;
        attempt_count = pos 1;
        last_error = none;
        sent_at_ms = some (pos 99);
      }
      ∷ drop 1 two_saved.outbox;
}

mark_first : outbox_store_mark_sent true done 1 (pos 99) once_failed ≡ (ok, first_sent)
unfolding outbox_store_mark_sent update_entry counted unbound after_finalize update_where
    count_where set_sent
mark_first = refl

never : ◌≢◌ {A = ℕ} 101 0
never e = omega (arith, e)

two_and_one : Run plain_json new_database (1 ∷ 2 ∷ []) (1 ∷ []) first_sent
two_and_one =
    deliver fine_query fine_copy done (pos 99) (first_item 1)
      (fail fine_query fine_copy done (69 ∷ []) (first_item 0) ok
        (save 8 topic (answers 2) (save 7 topic (answers 1) begin (never, never) ids_one save_one)
          (never, never) ids_two save_two)
        read_first fail_first)
      read_again mark_first

outbox-IsFifo_example :
    IsValid first_sent
    × (queue_of new_database.outbox ++ 1 ∷ 2 ∷ [] ≡ 1 ∷ [] ++ queue_of first_sent.outbox)
outbox-IsFifo_example = outbox-IsFifo plain_json new_database new-IsValid two_and_one

save-IsSaved_example :
    IsSaved
      (answers 1)
      topic
      (plain_json 7)
      new_database
      (outbox_store_save_measurement plain_json true (some 7) topic (answers 1) new_database)
save-IsSaved_example = save-IsSaved plain_json true 7 topic (answers 1) new_database never never

read-IsAnswer_example :
    IsAnswer
      (queue_of two_saved.outbox)
      (outbox_store_read_earliest_pending true fine_query fine_copy two_saved)
read-IsAnswer_example =
    read-IsAnswer fine_query fine_copy two_saved two-IsValid
      (refl, refl, refl, refl, refl, refl, refl, refl)

get_stats_lem_example :
    let (result, stats) = outbox_store_get_stats true fine_query two_saved in
    (result ≡ ok)
    × (stats.pending_count ≡ length (queue_of two_saved.outbox))
    × (stats.measurement_total ≡ stats.pending_count + stats.sent_count)
get_stats_lem_example = get_stats_lem fine_query two_saved two-IsValid refl refl refl

abbrev with_interval : Database
with_interval = record new_database { interval_ms = some (pos 250) }

saved_interval : outbox_store_save_interval true done (pos 250) new_database ≡ (ok, with_interval)
unfolding outbox_store_save_interval unbound after_finalize
saved_interval = refl

interval-roundtrip_example :
    (in_range (pos 250) ≡ true)
    × (outbox_store_load_interval true fine_query true with_interval ≡ (ok, some (pos 250)))
    × (with_interval.measurements ≡ new_database.measurements)
    × (with_interval.outbox ≡ new_database.outbox)
interval-roundtrip_example =
    interval-roundtrip true done fine_query (pos 250) new_database with_interval never
      saved_interval refl refl refl

abbrev printed_sample : List ℕ
printed_sample = 123 ∷ 125 ∷ []

sample_json : stored_json numbers calls sample ≡ text printed_sample
unfolding stored_json json_of_result
sample_json =
    ap json_of_result
      (json-roundtrip numbers sample 1000 sample-IsContract (omega arith) refl (omega arith) refl
        calls (λ json. some (object members)) members printed_sample sample refl (λ key. refl) refl
        refl refl sample-IsReadBack).0

abbrev sample_saved : Database
sample_saved =
    with_entry (answers 1) topic (with_measurement (answers 1) printed_sample new_database)

save_sample :
    outbox_store_save_measurement
      (stored_json numbers calls)
      true
      (some sample)
      topic
      (answers 1)
      new_database
    ≡ (ok, idle sample_saved)
unfolding outbox_store_save_measurement prepare_save_payload save_payload save_rows save_entry
    save_commit insert_fails unbound
save_sample = rw sample_json refl

saved-ReadsBack_example :
    (payload_of 1 sample_saved.measurements ≡ some printed_sample)
    × (measurement_from_json numbers
          (λ json. some (object members))
          (some printed_sample)
          true
          sample
        ≡ (JsonResult.ok, as_reread numbers sample))
saved-ReadsBack_example =
    saved-ReadsBack numbers sample 1000 calls (λ json. some (object members)) members printed_sample
      sample topic (answers 1) new_database sample_saved sample-IsContract (omega arith) refl
      (omega arith) refl refl (λ key. refl) refl refl refl sample-IsReadBack
      (λ e. omega (arith, e), λ e. omega (arith, e)) ids_one save_sample

-- ===== src/Storage/Outbox/Payload.antt =====
-- outbox_store_save_measurement of modules/storage/outbox_store.c with measurement_to_json of
-- domain/measurement_json.c: what is stored as the payload of an entry.
use edgevision_gateway.Common.{
  ℕ, ◌<◌, ◌≡◌, refl, ap, subst, ◌^◌, true, Option, some, List, length, ◌==◌, false, inl, inr, All,
}
use edgevision_gateway.Common.Int.{pos}
use edgevision_gateway.Domain.Measurement.{Measurement}
use edgevision_gateway.Domain.Measurement.Validate.{IsContract}
use edgevision_gateway.Domain.Json.{
  JsonFloats, JsonResult, Node, Root, object, JsonCalls, measurement_from_json, measurement_to_json,
}
use edgevision_gateway.Domain.Json.RoundTrip.{IsReadBack, all_members, as_reread, json-roundtrip}
use edgevision_gateway.Storage.Result.{ok}
use edgevision_gateway.Storage.Tables.{Database, payload_of}
use edgevision_gateway.Storage.Tables.Inserts.{payload_of-new}
use edgevision_gateway.Storage.Outbox.{
  Json, text, allocation_error, json_failure, idle, SaveAnswers, with_measurement, with_entry,
  outbox_store_save_measurement,
}
use edgevision_gateway.Storage.Outbox.Atomic.{IsSaved, save-IsSaved}
use edgevision_gateway.Storage.Outbox.Steps.{IsFresh, IsStepped}

-- What prepare_save_payload takes from the result of measurement_to_json.
unfoldable pub json_of_result : JsonResult × Option (List ℕ) → Json
json_of_result (JsonResult.ok, some bytes) = text bytes
json_of_result (JsonResult.allocation_error, json) = allocation_error
json_of_result (result, json) = json_failure

unfoldable pub stored_json : (F : JsonFloats) → JsonCalls F.Double → Measurement F.Double → Json
stored_json F c m = json_of_result (measurement_to_json F c (some m) true)

-- A measurement that meets the contract, with a sequence number of 32 bits and a time below 2 ^ 53, whose value
-- the digits that cJSON prints of it still leave finite, where no call of cJSON fails and cJSON finds again the
-- members that it has printed: when the save of it succeeds, the payload that is stored under its new row id is
-- the printed text, and measurement_from_json reads that as the same measurement, but that its value is the one
-- that those digits stand for, and that each text has zeros behind its end. SQLite's row ids are new, and its
-- steps never return SQLITE_OK.
pub saved-ReadsBack :
    (F : JsonFloats) (m : Measurement F.Double) (stamp : ℕ) (c : JsonCalls F.Double)
    (parse : List ℕ → Option (Root F.Double)) (get : List ℕ → Option (Node F.Double))
    (json : List ℕ) (before : Measurement F.Double) (topic : List ℕ) (a : SaveAnswers)
    (db after : Database)
    → IsContract F.is_finite m
    → m.sequence < 2 ^ 32
    → m.timestamp_ms ≡ pos stamp
    → stamp < 2 ^ 53
    → F.is_finite (F.reread m.value) ≡ true
    → c.is_created ≡ true
    → ((key : List ℕ) → c.can_add key ≡ true)
    → c.print (all_members F m) ≡ some json
    → (length json == 0) ≡ false
    → parse json ≡ some (object get)
    → All (IsReadBack F get) (all_members F m)
    → IsStepped a
    → IsFresh a db
    → outbox_store_save_measurement (stored_json F c) true (some m) topic a db ≡ (ok, idle after)
    → (payload_of a.measurement_id after.measurements ≡ some json)
      × (measurement_from_json F parse (some json) true before ≡ (JsonResult.ok, as_reread F m))
unfolding stored_json json_of_result
saved-ReadsBack F m stamp c parse get json before topic a db after contract fits at exact finite
      is_created can print some_text parsed back (first, second) fresh saved =
    let (written, read) =
      json-roundtrip F m stamp contract fits at exact finite c parse get json before is_created can
        print some_text parsed back in
    let made : stored_json F c m ≡ text json = ap json_of_result written in
    let is : IsSaved a topic (stored_json F c m) db (ok, idle after) =
      subst (IsSaved a topic (stored_json F c m) db) saved
        (save-IsSaved (stored_json F c) true m topic a db first second) in
    (
      elim is [
        | inl (fine, bytes, same, rows) ↦
            let now : after ≡ with_entry a topic (with_measurement a bytes db) = cc in
            let printed : bytes ≡ json = cc in
            rw (now, printed)
              (payload_of-new db.measurements
                (record { id = a.measurement_id; payload_json = json }) fresh.new_measurement)
        | inr (bad, kept) ↦ absurd (bad refl)
      ],
      read,
    )

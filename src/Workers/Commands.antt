-- ===== src/Workers/Commands.antt =====
-- gateway_handle_command of core/gateway_workers.c, with the part of gateway_storage_worker that serves its
-- requests. A call that waits for the storage worker is one step with what that has done for it.
pub mod Agree
mod Tests
use edgevision_gateway.Common.Text.{text_eq}
use edgevision_gateway.Common.{
  ℕ, Bool, true, false, not, ◌&&◌, ◌||◌, Option, none, some, List, [], ◌∷◌, ◌++◌, length, drop, ltb,
  leb, ◌==◌, if◌then◌else◌,
}
use edgevision_gateway.Common.Int.{ℤ, pos}
use edgevision_gateway.Gateway.Interval.{key, starts_with, parse_interval_ms}
use edgevision_gateway.Gateway.Interval.Digits.{decimal_text}
use edgevision_gateway.Storage.Result.{StoreResult, ok, Stmt, Query}
use edgevision_gateway.Storage.Tables.{Database}
use edgevision_gateway.Storage.Outbox.{
  Stats, zero_stats, outbox_store_get_stats, outbox_store_save_interval,
}
use edgevision_gateway.Workers.Text.{
  status_text, set_interval_text, set_interval_prefix, get_config_text, pause_text, resume_text,
  stats_text, version_text,
}

abbrev pub count_word : List ℕ
count_word =
    32 ∷ 99 ∷ 111 ∷ 108 ∷ 108 ∷ 101 ∷ 99 ∷ 116 ∷ 101 ∷ 100 ∷ 95 ∷ 99 ∷ 111 ∷ 117 ∷ 110 ∷ 116 ∷ 61
    ∷ []

abbrev pub collection_word : List ℕ
collection_word = 32 ∷ 99 ∷ 111 ∷ 108 ∷ 108 ∷ 101 ∷ 99 ∷ 116 ∷ 105 ∷ 111 ∷ 110 ∷ 61 ∷ []

abbrev pub paused_word : List ℕ
paused_word = 112 ∷ 97 ∷ 117 ∷ 115 ∷ 101 ∷ 100 ∷ []

abbrev pub running_word : List ℕ
running_word = 114 ∷ 117 ∷ 110 ∷ 110 ∷ 105 ∷ 110 ∷ 103 ∷ []

abbrev pub invalid_interval_reply : List ℕ
invalid_interval_reply =
    101 ∷ 114 ∷ 114 ∷ 111 ∷ 114 ∷ 61 ∷ 105 ∷ 110 ∷ 118 ∷ 97 ∷ 108 ∷ 105 ∷ 100 ∷ 95 ∷ 105 ∷ 110 ∷ 116
    ∷ 101 ∷ 114 ∷ 118 ∷ 97 ∷ 108 ∷ []

abbrev pub persist_failed_reply : List ℕ
persist_failed_reply =
    101 ∷ 114 ∷ 114 ∷ 111 ∷ 114 ∷ 61 ∷ 112 ∷ 101 ∷ 114 ∷ 115 ∷ 105 ∷ 115 ∷ 116 ∷ 95 ∷ 102 ∷ 97 ∷ 105
    ∷ 108 ∷ 101 ∷ 100 ∷ []

abbrev pub interval_reply : List ℕ
interval_reply =
    111 ∷ 107 ∷ 32 ∷ 105 ∷ 110 ∷ 116 ∷ 101 ∷ 114 ∷ 118 ∷ 97 ∷ 108 ∷ 95 ∷ 109 ∷ 115 ∷ 61 ∷ []

abbrev pub collection_reply : List ℕ
collection_reply =
    111 ∷ 107 ∷ 32 ∷ 99 ∷ 111 ∷ 108 ∷ 108 ∷ 101 ∷ 99 ∷ 116 ∷ 105 ∷ 111 ∷ 110 ∷ 61 ∷ []

abbrev pub stats_failed_reply : List ℕ
stats_failed_reply =
    101 ∷ 114 ∷ 114 ∷ 111 ∷ 114 ∷ 61 ∷ 115 ∷ 116 ∷ 97 ∷ 116 ∷ 115 ∷ 95 ∷ 102 ∷ 97 ∷ 105 ∷ 108 ∷ 101
    ∷ 100 ∷ []

abbrev pub measurements_word : List ℕ
measurements_word = 109 ∷ 101 ∷ 97 ∷ 115 ∷ 117 ∷ 114 ∷ 101 ∷ 109 ∷ 101 ∷ 110 ∷ 116 ∷ 115 ∷ 61 ∷ []

abbrev pub pending_word : List ℕ
pending_word = 32 ∷ 112 ∷ 101 ∷ 110 ∷ 100 ∷ 105 ∷ 110 ∷ 103 ∷ 61 ∷ []

abbrev pub sent_word : List ℕ
sent_word = 32 ∷ 115 ∷ 101 ∷ 110 ∷ 116 ∷ 61 ∷ []

abbrev pub version_reply : List ℕ
version_reply = 111 ∷ 107 ∷ 32 ∷ 118 ∷ 101 ∷ 114 ∷ 115 ∷ 105 ∷ 111 ∷ 110 ∷ 61 ∷ []

abbrev pub unknown_reply : List ℕ
unknown_reply =
    101 ∷ 114 ∷ 114 ∷ 111 ∷ 114 ∷ 61 ∷ 117 ∷ 110 ∷ 107 ∷ 110 ∷ 111 ∷ 119 ∷ 110 ∷ 95 ∷ 99 ∷ 111 ∷ 109
    ∷ 109 ∷ 97 ∷ 110 ∷ 100 ∷ []

-- What status_mutex guards of gateway_workers_t, as gateway_status_snapshot_t copies it. The interval is
-- never negative, since it is set in range only.
pub record Status : Type 0 where
  pub interval_ms : ℕ
  pub collected_count : ℕ
  pub collection_paused : Bool

-- gateway_storage_control_kind_t.
pub data ControlKind : Type 0 where
  set_interval get_stats : ControlKind

-- gateway_storage_control_request_t.
pub record ControlRequest : Type 0 where
  pub kind : ControlKind
  pub interval_ms : ℕ

-- gateway_storage_control_result_t.
pub record ControlResult : Type 0 where
  pub kind : ControlKind
  pub storage_result : StoreResult
  pub interval_ms : ℕ
  pub stats : Stats

-- The request as gateway_storage_worker serves it.
unfoldable pub serve_control : Stmt → Query → ControlRequest → Database → ControlResult × Database
serve_control s q request db = elim request.kind [
  | set_interval ↦ (
    record {
      kind = set_interval;
      storage_result = (outbox_store_save_interval true s (pos request.interval_ms) db).0;
      interval_ms = request.interval_ms;
      stats = zero_stats;
    },
    (outbox_store_save_interval true s (pos request.interval_ms) db).1,
  )
  | get_stats ↦ (
    record {
      kind = get_stats;
      storage_result = (outbox_store_get_stats true q db).0;
      interval_ms = 0;
      stats = (outbox_store_get_stats true q db).1;
    },
    db,
  )
]

-- bq_pop on the results: a time-out with what gateway_workers_should_stop says behind it, the
-- result, or BQ_CLOSED and errors.
pub data ControlPop : Type 0 where
  control_timeout : Bool → ControlPop
  control_ready control_failed : ControlPop

-- The loop that waits for the result: whether it comes.
pub wait_control : List ControlPop → Bool
wait_control [] = false
wait_control (control_ready ∷ pops) = true
wait_control (control_failed ∷ pops) = false
wait_control (control_timeout should_stop ∷ pops) =
    let rest = wait_control pops in if should_stop then false else rest

-- What the calls answer: whether the mutex is locked and unlocked, whether the request is pushed, the
-- pops, whether the storage worker has served a request whose result does not come, and SQLite. `left` is a
-- result that the queue of results, which has one place, still holds of a request that was abandoned.
pub record CommandAnswers : Type 0 where
  pub locks : Bool
  pub unlocks : Bool
  pub pushed : Bool
  pub pops : List ControlPop
  pub is_served : Bool
  pub left : Option ControlResult
  pub statement : Stmt
  pub query : Query

pub gateway_workers_get_status : CommandAnswers → Status → Option Status
gateway_workers_get_status a st = if a.locks && a.unlocks then some st else none

-- Whether the call returns 0, and the status behind it.
pub gateway_workers_set_interval : CommandAnswers → ℕ → Status → Bool × Status
gateway_workers_set_interval a requested_ms st =
    if ltb requested_ms 100 || ltb 60000 requested_ms
    then (false, st)
    else if not a.locks
    then (false, st)
    else (a.unlocks, record st { interval_ms = requested_ms })

pub gateway_workers_set_collection_paused : CommandAnswers → Bool → Status → Bool × Status
gateway_workers_set_collection_paused a paused st =
    if not a.locks then (false, st) else (a.unlocks, record st { collection_paused = paused })

-- snprintf and the test of its result at the end: `none` is a return of -1.
pub printed : ℕ → List ℕ → Option (List ℕ)
printed reply_size text = if leb reply_size (length text) then none else some text

-- The reply where the call returns 0, the status, and the database.
abbrev pub Commanded : Type 0
Commanded = Option (List ℕ) × Status × Database

abbrev pub paused_text : Bool → List ℕ
paused_text paused = if paused then paused_word else running_word

pub reply_status : ℕ → Option Status → Option (List ℕ)
reply_status reply_size none = none
reply_status reply_size (some snapshot) = printed reply_size (
    key
    ++ decimal_text snapshot.interval_ms
    ++ count_word
    ++ decimal_text snapshot.collected_count
    ++ collection_word
    ++ paused_text snapshot.collection_paused)

pub reply_config : ℕ → Option Status → Option (List ℕ)
reply_config reply_size none = none
reply_config reply_size (some snapshot) =
    printed reply_size (key ++ decimal_text snapshot.interval_ms)

-- Behind gateway_workers_set_interval.
pub interval_set : ℕ → ℕ → Database → Bool × Status → Commanded
interval_set reply_size ms db (done, st) =
    (if done then printed reply_size (interval_reply ++ decimal_text ms) else none, st, db)

-- With the result of the storage worker.
pub interval_stored : ℕ → CommandAnswers → Status → ControlResult × Database → Commanded
interval_stored reply_size a st (r, db) = elim r.kind [
  | get_stats ↦ (none, st, db)
  | set_interval ↦ elim r.storage_result [
    | ok ↦
        interval_set reply_size r.interval_ms db (gateway_workers_set_interval a r.interval_ms st)
    | _ ↦ (printed reply_size persist_failed_reply, st, db)
  ]
]

pub stats_read : ℕ → Status → ControlResult × Database → Commanded
stats_read reply_size st (r, db) = elim r.kind [
  | set_interval ↦ (none, st, db)
  | get_stats ↦ elim r.storage_result [
    | ok ↦ (
      printed reply_size (
          measurements_word
          ++ decimal_text r.stats.measurement_total
          ++ pending_word
          ++ decimal_text r.stats.pending_count
          ++ sent_word
          ++ decimal_text r.stats.sent_count),
      st,
      db,
    )
    | _ ↦ (printed reply_size stats_failed_reply, st, db)
  ]
]

-- A request to the storage worker. The result that comes goes to `next`: its own, but one that is left of an
-- abandoned request comes before it.
pub requested :
    CommandAnswers
    → ControlRequest
    → (ControlResult × Database → Commanded)
    → Status
    → Database
    → Commanded
requested a request next st db =
    let served = serve_control a.statement a.query request db in
    let behind = if a.is_served then served.1 else db in
    if not a.pushed
    then (none, st, db)
    else if wait_control a.pops
    then elim a.left [ none ↦ next served | some r ↦ next (r, behind) ]
    else (none, st, behind)

-- set_interval with the value, if it parses.
pub command_interval : ℕ → CommandAnswers → Option ℕ → Status → Database → Commanded
command_interval reply_size a none st db = (printed reply_size invalid_interval_reply, st, db)
command_interval reply_size a (some ms) st db =
    if ltb ms 100 || ltb 60000 ms
    then (printed reply_size invalid_interval_reply, st, db)
    else requested a (record { kind = set_interval; interval_ms = ms })
        (interval_stored reply_size a st) st db

-- Behind gateway_workers_set_collection_paused.
pub paused_set : ℕ → Bool → Database → Bool × Status → Commanded
paused_set reply_size paused db (done, st) =
    (if done then printed reply_size (collection_reply ++ paused_text paused) else none, st, db)

-- The last three cases; `version` is EDGEVISION_VERSION.
pub reading_command : List ℕ → ℕ → CommandAnswers → List ℕ → Status → Database → Commanded
reading_command version reply_size a command st db =
    if text_eq command stats_text
    then requested a (record { kind = get_stats; interval_ms = 0 }) (stats_read reply_size st) st db
    else if text_eq command version_text
    then (printed reply_size (version_reply ++ version), st, db)
    else (printed reply_size unknown_reply, st, db)

-- The cases from get_config on.
pub setting_command : List ℕ → ℕ → CommandAnswers → List ℕ → Status → Database → Commanded
setting_command version reply_size a command st db =
    if text_eq command get_config_text
    then (reply_config reply_size (gateway_workers_get_status a st), st, db)
    else if text_eq command pause_text
    then paused_set reply_size true db (gateway_workers_set_collection_paused a true st)
    else if text_eq command resume_text
    then paused_set reply_size false db (gateway_workers_set_collection_paused a false st)
    else reading_command version reply_size a command st db

-- The pointers are there.
pub gateway_handle_command : List ℕ → ℕ → CommandAnswers → List ℕ → Status → Database → Commanded
gateway_handle_command version reply_size a command st db =
    if (length command == 0) || (reply_size == 0)
    then (none, st, db)
    else if text_eq command status_text
    then (reply_status reply_size (gateway_workers_get_status a st), st, db)
    else if text_eq command set_interval_text
    then (printed reply_size invalid_interval_reply, st, db)
    else if starts_with set_interval_prefix command
    then command_interval reply_size a (parse_interval_ms (drop 13 command)) st db
    else setting_command version reply_size a command st db

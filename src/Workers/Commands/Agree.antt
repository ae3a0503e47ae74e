-- ===== src/Workers/Commands/Agree.antt =====
-- gateway_handle_command keeps the interval of the gateway and the stored one together.
use edgevision_gateway.Common.Text.{text_eq}
use edgevision_gateway.Common.{
  ℕ, ◌≡◌, ◌⊎◌, inl, inr, refl, ap, Bool, true, false, not, ◌||◌, Option, none, some, List, ◌++◌,
  length, drop, ltb, ◌==◌, if◌then◌else◌, if_both,
}
use edgevision_gateway.Common.Int.{pos}
use edgevision_gateway.Gateway.Interval.{starts_with, parse_interval_ms}
use edgevision_gateway.Gateway.Interval.Digits.{decimal_text}
use edgevision_gateway.Storage.Result.{
  StoreResult, ok, empty, not_found, invalid_argument, busy, db_error, schema_error,
  serialization_error, no_memory,
}
use edgevision_gateway.Storage.Tables.{Database}
use edgevision_gateway.Storage.Outbox.{in_range}
use edgevision_gateway.Storage.Outbox.Interval.{IsExact, save-IsExact}
use edgevision_gateway.Storage.Outbox.Steps.{IsQuiet}
use edgevision_gateway.Workers.Text.{
  status_text, set_interval_text, set_interval_prefix, get_config_text, pause_text, resume_text,
  stats_text, version_text,
}
use edgevision_gateway.Workers.Commands.{
  Status, ControlKind, ControlResult, set_interval, get_stats, serve_control, CommandAnswers,
  wait_control, gateway_workers_get_status, gateway_workers_set_interval,
  gateway_workers_set_collection_paused, printed, Commanded, interval_set, interval_stored,
  stats_read, requested, command_interval, measurements_word, pending_word, sent_word,
  stats_failed_reply, paused_set, persist_failed_reply, invalid_interval_reply, reply_status,
  reply_config, reading_command, setting_command, gateway_handle_command,
}

-- Behind a command: the interval is as it was, in the gateway and in the database; or it is a new
-- one in range, the same in both; or the call has failed. The count and the rest of the database
-- are as they were.
abbrev pub Kept : Status → Database → Commanded → Type 0
Kept st db (reply, after, stored) =
    (((after.interval_ms ≡ st.interval_ms) × (stored.interval_ms ≡ db.interval_ms))
      ⊎ ((ms : ℕ) × (in_range (pos ms) ≡ true)
          × (after.interval_ms ≡ ms)
          × (stored.interval_ms ≡ some (pos ms)))
      ⊎ (reply ≡ none))
    × (after.collected_count ≡ st.collected_count)
    × (stored.outbox ≡ db.outbox)
    × (stored.measurements ≡ db.measurements)

-- A call that leaves the interval and the database alone.
same-Kept : (st : Status) (db : Database) (o : Option (List ℕ)) → Kept st db (o, st, db)
same-Kept st db o = (inl (refl, refl), refl, refl, refl)

set_interval-Kept :
    (reply_size ms : ℕ) (a : CommandAnswers) (st : Status) (db stored : Database)
    → in_range (pos ms) ≡ true
    → stored ≡ record db { interval_ms = some (pos ms) }
    → Kept st db (interval_set reply_size ms stored (gateway_workers_set_interval a ms st))
unfolding interval_set gateway_workers_set_interval
set_interval-Kept reply_size ms a st db stored range is =
    if_both (λ (x : Bool × Status). Kept st db (interval_set reply_size ms stored x))
      (ltb ms 100 || ltb 60000 ms) _ _ (λ e. failed)
      (λ e.
        if_both (λ (x : Bool × Status). Kept st db (interval_set reply_size ms stored x))
          (not a.locks) _ _ (λ f. failed)
          (λ f. (
            inr (inl (ms, range, refl, ap (λ (d : Database). d.interval_ms) is)),
            refl,
            ap (λ (d : Database). d.outbox) is,
            ap (λ (d : Database). d.measurements) is,
          )))
  where
    failed : Kept st db (none, st, stored)
    failed = (
      inr (inr refl),
      refl,
      ap (λ (d : Database). d.outbox) is,
      ap (λ (d : Database). d.measurements) is,
    )

-- The result of the storage worker for a new interval.
stored-Kept :
    (reply_size ms : ℕ) (a : CommandAnswers) (st : Status) (db : Database) (r : StoreResult)
    (stored : Database)
    → IsExact (pos ms) db (r, stored)
    → Kept st db (elim r [
      | ok ↦ interval_set reply_size ms stored (gateway_workers_set_interval a ms st)
      | _ ↦ (printed reply_size persist_failed_reply, st, stored)
    ])
stored-Kept reply_size ms a st db ok stored (inl (e, range, is)) =
    set_interval-Kept reply_size ms a st db stored range is
stored-Kept reply_size ms a st db ok stored (inr (no_success, is)) = absurd (no_success refl)
stored-Kept reply_size ms a st db empty stored (inl (e, range, is)) = absurd cc
stored-Kept reply_size ms a st db empty stored (inr (no_success, is)) = rw is (same-Kept st db _)
stored-Kept reply_size ms a st db not_found stored (inl (e, range, is)) = absurd cc
stored-Kept reply_size ms a st db not_found stored (inr (no_success, is)) =
    rw is (same-Kept st db _)
stored-Kept reply_size ms a st db invalid_argument stored (inl (e, range, is)) = absurd cc
stored-Kept reply_size ms a st db invalid_argument stored (inr (no_success, is)) =
    rw is (same-Kept st db _)
stored-Kept reply_size ms a st db busy stored (inl (e, range, is)) = absurd cc
stored-Kept reply_size ms a st db busy stored (inr (no_success, is)) = rw is (same-Kept st db _)
stored-Kept reply_size ms a st db db_error stored (inl (e, range, is)) = absurd cc
stored-Kept reply_size ms a st db db_error stored (inr (no_success, is)) = rw is (same-Kept st db _)
stored-Kept reply_size ms a st db schema_error stored (inl (e, range, is)) = absurd cc
stored-Kept reply_size ms a st db schema_error stored (inr (no_success, is)) =
    rw is (same-Kept st db _)
stored-Kept reply_size ms a st db serialization_error stored (inl (e, range, is)) = absurd cc
stored-Kept reply_size ms a st db serialization_error stored (inr (no_success, is)) =
    rw is (same-Kept st db _)
stored-Kept reply_size ms a st db no_memory stored (inl (e, range, is)) = absurd cc
stored-Kept reply_size ms a st db no_memory stored (inr (no_success, is)) =
    rw is (same-Kept st db _)

-- The database behind a save that is not waited for.
left-Kept :
    (ms : ℕ) (st : Status) (db : Database) (b : Bool) (x : StoreResult × Database)
    → IsExact (pos ms) db x
    → Kept st db (none, st, if b then x.1 else db)
left-Kept ms st db false x h = same-Kept st db none
left-Kept ms st db true (r, stored) (inl (e, range, is)) = (
  inr (inr refl),
  refl,
  ap (λ (d : Database). d.outbox) is,
  ap (λ (d : Database). d.measurements) is,
)
left-Kept ms st db true (r, stored) (inr (no_success, is)) = rw is (same-Kept st db none)

stats_result-Kept :
    (st : Status) (db : Database) (r : StoreResult) (fine bad : Option (List ℕ))
    → Kept st db (elim r [ ok ↦ (fine, st, db) | _ ↦ (bad, st, db) ])
stats_result-Kept st db ok fine bad = same-Kept st db _
stats_result-Kept st db empty fine bad = same-Kept st db _
stats_result-Kept st db not_found fine bad = same-Kept st db _
stats_result-Kept st db invalid_argument fine bad = same-Kept st db _
stats_result-Kept st db busy fine bad = same-Kept st db _
stats_result-Kept st db db_error fine bad = same-Kept st db _
stats_result-Kept st db schema_error fine bad = same-Kept st db _
stats_result-Kept st db serialization_error fine bad = same-Kept st db _
stats_result-Kept st db no_memory fine bad = same-Kept st db _

-- A result that is left in the queue, if any, is not one of an abandoned request to set an interval.
abbrev pub IsCurrent : Option ControlResult → Type 0
IsCurrent none = Unit
IsCurrent (some r) = r.kind ≡ get_stats

kind_both :
    (P : Commanded → Type 0) (kind : ControlKind) (x y : Commanded)
    → P x
    → P y
    → P (elim kind [ set_interval ↦ x | get_stats ↦ y ])
kind_both P set_interval x y h k = h
kind_both P get_stats x y h k = k

stats_read-Kept :
    (reply_size : ℕ) (st : Status) (db : Database) (r : ControlResult)
    → Kept st db (stats_read reply_size st (r, db))
unfolding stats_read
stats_read-Kept reply_size st db r =
    let fine = printed reply_size (
      measurements_word
      ++ decimal_text r.stats.measurement_total
      ++ pending_word
      ++ decimal_text r.stats.pending_count
      ++ sent_word
      ++ decimal_text r.stats.sent_count) in
    let bad = printed reply_size stats_failed_reply in
    kind_both (Kept st db) r.kind (none, st, db)
      (elim r.storage_result [ ok ↦ (fine, st, db) | _ ↦ (bad, st, db) ]) (same-Kept st db none)
      (stats_result-Kept st db r.storage_result fine bad)

module _ (reply_size : ℕ) (a : CommandAnswers) (st : Status) (db : Database)
    (quiet : IsQuiet a.statement) (current : IsCurrent a.left) where
  interval_taken-Kept :
      (ms : ℕ) (left : Option ControlResult)
      → IsCurrent left
      → let served =
          serve_control a.statement a.query (record { kind = set_interval; interval_ms = ms }) db in
        Kept st db (elim left [
          | none ↦ interval_stored reply_size a st served
          | some r ↦ interval_stored reply_size a st (r, if a.is_served then served.1 else db)
        ])
  unfolding serve_control interval_stored
  interval_taken-Kept ms none now =
      stored-Kept reply_size ms a st db _ _
        (save-IsExact a.statement (pos ms) db quiet.stepped quiet.finalized)
  interval_taken-Kept ms (some r) now = rw now (
      left-Kept ms st db a.is_served _
        (save-IsExact a.statement (pos ms) db quiet.stepped quiet.finalized))

  interval_request-Kept :
      (ms : ℕ)
      → Kept st db (
          requested a
            (record { kind = set_interval; interval_ms = ms })
            (interval_stored reply_size a st)
            st
            db)
  unfolding requested serve_control
  interval_request-Kept ms =
      if_both (Kept st db) (not a.pushed) _ _ (λ e. same-Kept st db none)
        (λ e.
          if_both (Kept st db) (wait_control a.pops) _ _
            (λ f. interval_taken-Kept ms a.left current)
            (λ f.
              left-Kept ms st db a.is_served _
                (save-IsExact a.statement (pos ms) db quiet.stepped quiet.finalized)))

  stats_taken-Kept :
      (left : Option ControlResult)
      → let served =
          serve_control a.statement a.query (record { kind = get_stats; interval_ms = 0 }) db in
        Kept st db (elim left [
          | none ↦ stats_read reply_size st served
          | some r ↦ stats_read reply_size st (r, if a.is_served then served.1 else db)
        ])
  unfolding serve_control
  stats_taken-Kept none = stats_read-Kept reply_size st db _
  stats_taken-Kept (some r) =
      if_both (λ d. Kept st db (stats_read reply_size st (r, d))) a.is_served db db
        (λ g. stats_read-Kept reply_size st db r) (λ g. stats_read-Kept reply_size st db r)

  stats_request-Kept :
      Kept st db (
        requested a (record { kind = get_stats; interval_ms = 0 }) (stats_read reply_size st) st db)
  unfolding requested serve_control
  stats_request-Kept =
      if_both (Kept st db) (not a.pushed) _ _ (λ e. same-Kept st db none)
        (λ e.
          if_both (Kept st db) (wait_control a.pops) _ _ (λ f. stats_taken-Kept a.left)
            (λ f.
              if_both (λ d. Kept st db (none, st, d)) a.is_served db db (λ g. same-Kept st db none)
                (λ g. same-Kept st db none)))

  command_interval-Kept : (o : Option ℕ) → Kept st db (command_interval reply_size a o st db)
  unfolding command_interval
  command_interval-Kept none = same-Kept st db _
  command_interval-Kept (some ms) =
      if_both (Kept st db) (ltb ms 100 || ltb 60000 ms) _ _ (λ e. same-Kept st db _)
        (λ e. interval_request-Kept ms)

  paused-Kept :
      (paused : Bool)
      → Kept st db
          (paused_set reply_size paused db (gateway_workers_set_collection_paused a paused st))
  unfolding paused_set gateway_workers_set_collection_paused
  paused-Kept paused =
      if_both (λ (x : Bool × Status). Kept st db (paused_set reply_size paused db x)) (not a.locks)
        _ _ (λ e. same-Kept st db none) (λ e. (inl (refl, refl), refl, refl, refl))

  reading-Kept :
      (version command : List ℕ) → Kept st db (reading_command version reply_size a command st db)
  unfolding reading_command
  reading-Kept version command =
      if_both (Kept st db) (text_eq command stats_text) _ _ (λ e. stats_request-Kept)
        (λ e.
          if_both (Kept st db) (text_eq command version_text) _ _ (λ f. same-Kept st db _)
            (λ f. same-Kept st db _))

  setting-Kept :
      (version command : List ℕ) → Kept st db (setting_command version reply_size a command st db)
  unfolding setting_command
  setting-Kept version command =
      if_both (Kept st db) (text_eq command get_config_text)
        (reply_config reply_size (gateway_workers_get_status a st), st, db) _
        (λ e. same-Kept st db _)
        (λ e.
          if_both (Kept st db) (text_eq command pause_text) _ _ (λ f. paused-Kept true)
            (λ f.
              if_both (Kept st db) (text_eq command resume_text) _ _ (λ g. paused-Kept false)
                (λ g. reading-Kept version command)))

-- Where no result of an abandoned request to set an interval is left in the queue of results, and whatever the
-- command, the mutex, the queues, the storage worker and SQLite do: behind a command that is answered, the
-- interval that the gateway measures with and the stored one are both as they were, or both are the same new
-- number from 100 to 60000; and no command changes the count, the measurements or the outbox. SQLite's step
-- never returns SQLITE_OK, and its finalize no error that the step did not.
pub command-Kept :
    (version : List ℕ) (reply_size : ℕ) (a : CommandAnswers) (command : List ℕ) (st : Status)
    (db : Database)
    → IsQuiet a.statement
    → IsCurrent a.left
    → Kept st db (gateway_handle_command version reply_size a command st db)
unfolding gateway_handle_command
command-Kept version reply_size a command st db quiet current =
    if_both (Kept st db) ((length command == 0) || (reply_size == 0)) (none, st, db) _
      (λ e. same-Kept st db none)
      (λ e.
        if_both (Kept st db) (text_eq command status_text)
          (reply_status reply_size (gateway_workers_get_status a st), st, db) _
          (λ f. same-Kept st db _)
          (λ f.
            if_both (Kept st db) (text_eq command set_interval_text)
              (printed reply_size invalid_interval_reply, st, db) _ (λ g. same-Kept st db _)
              (λ g.
                if_both (Kept st db) (starts_with set_interval_prefix command)
                  (command_interval reply_size a (parse_interval_ms (drop 13 command)) st db)
                  (setting_command version reply_size a command st db)
                  (λ k. command_interval-Kept reply_size a st db quiet current _)
                  (λ k. setting-Kept reply_size a st db quiet current version command))))

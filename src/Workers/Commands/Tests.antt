-- ===== src/Workers/Commands/Tests.antt =====
-- The commands on a gateway that measures every 1000 ms.
use edgevision_gateway.Common.Text.{text_eq}
use edgevision_gateway.Common.{ℕ, ◌≡◌, refl, arith, true, false, none, some, List, [], ◌∷◌, ◌++◌}
use edgevision_gateway.Common.Int.{pos}
use edgevision_gateway.Gateway.Interval.{starts_with}
use edgevision_gateway.Gateway.Interval.Digits.{digits}
use edgevision_gateway.Storage.Result.{ok}
use edgevision_gateway.Storage.Tables.{Database}
use edgevision_gateway.Storage.Outbox.{zero_stats, outbox_store_save_interval}
use edgevision_gateway.Workers.Text.{set_interval_prefix, pause_text, get_config_text}
use edgevision_gateway.Workers.Commands.{
  Status, CommandAnswers, ControlResult, set_interval, control_timeout, control_ready,
  gateway_handle_command, requested, interval_stored, interval_set, serve_control,
  gateway_workers_set_interval, wait_control, gateway_workers_set_collection_paused, paused_set,
  setting_command, gateway_workers_get_status, reply_config, printed,
}
use edgevision_gateway.Storage.Outbox.Steps.{IsQuiet}
use edgevision_gateway.Workers.Commands.Agree.{Kept, command-Kept}

abbrev version : List ℕ
version = 49 ∷ []

abbrev answers : CommandAnswers
answers = record {
  locks = true;
  unlocks = true;
  pushed = true;
  pops = control_timeout false ∷ control_ready ∷ [];
  is_served = true;
  left = none;
  statement = record { prepare = 0; bind_first = 0; bind_second = 0; step = 101; finalize = 0 };
  query = record { prepare = 0; step_error = none; finalize = 0 };
}

abbrev every_second : Status
every_second = record { interval_ms = 1000; collected_count = 7; collection_paused = false }

abbrev database : Database
database = record { measurements = []; outbox = []; interval_ms = some (pos 1000) }

pause : gateway_handle_command version 128 answers pause_text every_second database ≡ (
  some (
      111 ∷ 107 ∷ 32 ∷ 99 ∷ 111 ∷ 108 ∷ 108 ∷ 101 ∷ 99 ∷ 116 ∷ 105 ∷ 111 ∷ 110 ∷ 61 ∷ 112 ∷ 97 ∷ 117
      ∷ 115 ∷ 101 ∷ 100 ∷ []),
  record every_second { collection_paused = true },
  database,
)
unfolding gateway_handle_command text_eq starts_with setting_command paused_set
    gateway_workers_set_collection_paused printed
pause = refl

get_config : gateway_handle_command version 128 answers get_config_text every_second database ≡ (
  some
      (105 ∷ 110 ∷ 116 ∷ 101 ∷ 114 ∷ 118 ∷ 97 ∷ 108 ∷ 95 ∷ 109 ∷ 115 ∷ 61 ∷ 49 ∷ 48 ∷ 48 ∷ 48 ∷ []),
  every_second,
  database,
)
unfolding gateway_handle_command text_eq starts_with setting_command reply_config
    gateway_workers_get_status printed digits
get_config = refl

-- What an abandoned request to set 200 has left.
abbrev of_abandoned : ControlResult
of_abandoned = record {
  kind = set_interval;
  storage_result = ok;
  interval_ms = 200;
  stats = zero_stats;
}

-- The next request sets 300, which the storage worker saves: the gateway takes, and reports, the 200 of the
-- result that was left.
takes_stale :
    requested
      (record answers { left = some of_abandoned })
      (record { kind = set_interval; interval_ms = 300 })
      (interval_stored 128 (record answers { left = some of_abandoned }) every_second)
      every_second
      database
    ≡ (
      some (
          111 ∷ 107 ∷ 32 ∷ 105 ∷ 110 ∷ 116 ∷ 101 ∷ 114 ∷ 118 ∷ 97 ∷ 108 ∷ 95 ∷ 109 ∷ 115 ∷ 61 ∷ 50
          ∷ 48 ∷ 48 ∷ []),
      record every_second { interval_ms = 200 },
      (outbox_store_save_interval true answers.statement (pos 300) database).1,
    )
unfolding requested interval_stored interval_set serve_control gateway_workers_set_interval
    wait_control printed digits
takes_stale = refl

quiet : IsQuiet answers.statement
quiet = record { stepped = λ e. omega (arith, e); finalized = λ e. refl }

command-Kept_example : Kept every_second database (
    gateway_handle_command version 128 answers
      (set_interval_prefix ++ 50 ∷ 53 ∷ 48 ∷ [])
      every_second
      database)
command-Kept_example =
    command-Kept version 128 answers (set_interval_prefix ++ 50 ∷ 53 ∷ 48 ∷ []) every_second
      database quiet tt

-- ===== src/Storage/Schema/Tests.antt =====
-- A database of the first version, opened.
use edgevision_gateway.Common.{◌≡◌, refl, arith, true, false, none, some, [], ◌∷◌}
use edgevision_gateway.Common.Int.{pos}
use edgevision_gateway.Storage.Result.{Query}
use edgevision_gateway.Storage.Schema.{
  Schema, outbox_store_enable_and_check_foreign_keys, outbox_store_set_journal_mode_wal,
  outbox_store_read_user_version, run_script, outbox_store_migrate_v1_to_v2,
  outbox_store_migrate_v2_to_v3, outbox_store_migrate_v3_to_v4, TableQuery, exists_finalized,
  outbox_store_table_exists, required, verify_current_schema, Script, reread, at_version,
  OpenAnswers, verified, migrated, versioned, journaled, keyed, outbox_store_open,
}
use edgevision_gateway.Storage.Schema.Versions.{IsLayout}
use edgevision_gateway.Storage.Schema.Layout.{AreStepped, IsOpened, open-IsOpened}

abbrev fine : Query
fine = record { prepare = 0; step_error = none; finalize = 0 }

abbrev fine_table : TableQuery
fine_table = record { prepare = 0; bind = 0; step_error = none; finalize = 0 }

abbrev fine_script : Script
fine_script = record { exec = 0; read = fine }

abbrev answers : OpenAnswers
answers = record {
  has_memory = true;
  open_rc = 0;
  busy_timeout_rc = 0;
  foreign_keys = record { exec = 0; query = fine; value = pos 1 };
  journal = record { query = fine; mode = some true };
  read = fine;
  create = fine_script;
  migrate_v1 = fine_script;
  migrate_v2 = fine_script;
  migrate_v3 = fine_script;
  tables = record {
    for_measurements = fine_table;
    for_outbox = fine_table;
    for_config = fine_table;
  };
}

abbrev first_version : Schema
first_version = record {
  user_version = pos 1;
  measurements = true;
  outbox = true;
  delivery_columns = false;
  message_ids = false;
  index = false;
  gateway_config = false;
}

open_first : (outbox_store_open (47 ∷ []) (pos 100) answers first_version).has_store ≡ true
unfolding outbox_store_open keyed journaled versioned migrated verified
    outbox_store_enable_and_check_foreign_keys outbox_store_set_journal_mode_wal
    outbox_store_read_user_version run_script outbox_store_migrate_v1_to_v2
    outbox_store_migrate_v2_to_v3 outbox_store_migrate_v3_to_v4 exists_finalized
    outbox_store_table_exists required verify_current_schema reread at_version
open_first = refl

steps : AreStepped answers
steps = (λ e. absurd cc, λ e. absurd cc, λ e. absurd cc, λ e. absurd cc, λ e. absurd cc)

layout : IsLayout first_version
layout = (
  (λ k. (refl, refl)),
  (λ k. absurd (omega (arith, k))),
  (λ k. absurd (omega (arith, k))),
  (λ k. absurd (omega (arith, k))),
)

open-IsOpened_example : IsOpened (outbox_store_open (47 ∷ []) (pos 100) answers first_version)
open-IsOpened_example = open-IsOpened (47 ∷ []) (pos 100) answers first_version steps layout

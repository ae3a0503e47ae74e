-- ===== src/Storage/Outbox/Counts.antt =====
-- outbox_store_get_stats of modules/storage/outbox_store.c counts the queue.
use edgevision_gateway.Common.{◌+◌, ◌≡◌, refl, arith, true, none, length}
use edgevision_gateway.Storage.Result.{ok, sqlite_ok, Query}
use edgevision_gateway.Storage.Result.Errors.{after_finalize_fine}
use edgevision_gateway.Storage.Tables.{Database}
use edgevision_gateway.Storage.Tables.Pending.{queue_of}
use edgevision_gateway.Storage.Tables.Updates.{count_pending, count_all}
use edgevision_gateway.Storage.Outbox.{with_stats, outbox_store_get_stats}
use edgevision_gateway.Storage.Outbox.Reads.{IsValid}

-- Where no call of SQLite fails, the statistics of valid tables count the entries in the queue as
-- pending, and every measurement that was saved as pending or sent.
pub get_stats_lem :
    (s : Query) (db : Database)
    → IsValid db
    → s.prepare ≡ sqlite_ok
    → s.step_error ≡ none
    → s.finalize ≡ sqlite_ok
    → let (result, stats) = outbox_store_get_stats true s db in
      (result ≡ ok)
      × (stats.pending_count ≡ length (queue_of db.outbox))
      × (stats.measurement_total ≡ stats.pending_count + stats.sent_count)
unfolding outbox_store_get_stats with_stats
get_stats_lem s db v prepared stepped finished =
    rw (prepared, stepped, finished, after_finalize_fine)
      (refl, count_pending db.outbox, omega (arith, v.paired, count_all db.outbox))

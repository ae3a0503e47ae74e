-- ===== src/Workers/Pipeline/Delivery.antt =====
-- The storage worker and the MQTT worker together, however their steps interleave.
use edgevision_gateway.Common.{◌≡◌, refl, List, [], ◌∷◌, ◌++◌, append-nil}
use edgevision_gateway.Domain.Measurement.{Measurement}
use edgevision_gateway.Storage.Tables.{Database}
use edgevision_gateway.Storage.Tables.Pending.{queue_of}
use edgevision_gateway.Storage.Outbox.{Json}
use edgevision_gateway.Storage.Outbox.Reads.{IsValid}
use edgevision_gateway.Storage.Outbox.Steps.{IsQuiet}
use edgevision_gateway.Workers.Pipeline.{Publisher, fetching, done, publishing, reporting}
use edgevision_gateway.Workers.Pipeline.Moves.{
  Pipeline, new_pipeline, Move, control, results, measurement, schedule, fetch, publish,
  report_back, close_delivery, close_results, move, run,
}
use edgevision_gateway.Workers.Pipeline.Flow.{Delivered, nothing, Flow, OpensFor, IsFlowing}
use edgevision_gateway.Workers.Pipeline.Publishing.{
  fetch-IsFlowing, publish-IsFlowing, report-IsFlowing,
}
use edgevision_gateway.Workers.Pipeline.Turns.{IsSaneTurn, control-IsFlowing, results-IsFlowing}
use edgevision_gateway.Workers.Pipeline.Storing.{IsSaneMeasurement, measurement-IsFlowing}
use edgevision_gateway.Workers.Pipeline.Scheduling.{schedule-IsFlowing}

module _ {Double : Type 0} (to_json : Measurement Double → Json) where
  -- What SQLite promises of its answers to a step: sqlite3_step never returns SQLITE_OK, sqlite3_finalize makes no
  -- error of its own, and a new row id is above those that are there.
  abbrev pub IsSane : Move Double → Pipeline → Type 0
  IsSane (control turn) p = IsSaneTurn turn
  IsSane (results fails s clock) p = IsQuiet s
  IsSane (measurement turn) p = IsSaneMeasurement turn p.storage.db
  IsSane (schedule should_stop clock s c fails) p = Unit
  IsSane (fetch fails) p = Unit
  IsSane (publish is_made result clock) p = Unit
  IsSane (report_back fails failed) p = Unit
  IsSane close_delivery p = Unit
  IsSane close_results p = Unit

  abbrev pub AreSane : List (Move Double) → Pipeline → Type 0
  AreSane [] p = Unit
  AreSane (m ∷ moves) p = IsSane m p × AreSane moves (move to_json m p)

  pub run-append :
      (first second : List (Move Double)) (p : Pipeline)
      → run to_json (first ++ second) p ≡ run to_json second (run to_json first p)
  unfolding run
  run-append [] second p = refl
  run-append (m ∷ first) second p = run-append first second (move to_json m p)

  pub append-AreSane :
      (first second : List (Move Double)) (p : Pipeline)
      → AreSane first p
      → AreSane second (run to_json first p)
      → AreSane (first ++ second) p
  unfolding run
  append-AreSane [] second p h k = k
  append-AreSane (m ∷ first) second p (here, h) k =
      (here, append-AreSane first second (move to_json m p) h k)

  module _ (start : Database) where
    close_results-IsFlowing :
        (p : Pipeline) → IsFlowing start p → IsFlowing start (move to_json close_results p)
    unfolding move
    close_results-IsFlowing p h = closed p.publisher h.flow h.opened
      where
        closed :
            (u : Publisher)
            → Flow p.storage.delivery_inflight
                (queue_of p.storage.db.outbox)
                p.attempts
                u
                p.delivery.item
                p.results.item
            → OpensFor u p.results.is_closed
            → IsFlowing start (move to_json close_results (record p { publisher = u }))
        closed done f o = record {
          valid = h.valid;
          in_order = h.in_order;
          flow = f;
          opened = tt;
          delivered = h.delivered;
        }
        closed fetching f o = record {
          valid = h.valid;
          in_order = h.in_order;
          flow = f;
          opened = o;
          delivered = h.delivered;
        }
        closed (publishing item) f o = record {
          valid = h.valid;
          in_order = h.in_order;
          flow = f;
          opened = o;
          delivered = h.delivered;
        }
        closed (reporting r) f o = record {
          valid = h.valid;
          in_order = h.in_order;
          flow = f;
          opened = o;
          delivered = h.delivered;
        }

    move-IsFlowing :
        (m : Move Double) (p : Pipeline)
        → IsSane m p
        → IsFlowing start p
        → IsFlowing start (move to_json m p)
    unfolding move
    move-IsFlowing (control turn) p sane h = control-IsFlowing start to_json turn p sane h
    move-IsFlowing (results fails s clock) p sane h =
        results-IsFlowing start to_json fails s clock p sane h
    move-IsFlowing (measurement turn) p sane h = measurement-IsFlowing to_json start turn p sane h
    move-IsFlowing (schedule should_stop clock s c fails) p sane h =
        schedule-IsFlowing start p h to_json should_stop clock s c fails
    move-IsFlowing (fetch fails) p sane h =
        fetch-IsFlowing to_json start p.storage p.saved p.sent p.attempts fails p.delivery.item
          p.delivery.is_closed p.publisher p.results.item p.results.is_closed h
    move-IsFlowing (publish is_made result clock) p sane h =
        publish-IsFlowing to_json start p.storage p.saved p.sent p.attempts is_made result clock
          p.delivery.item p.delivery.is_closed p.publisher p.results.item p.results.is_closed h
    move-IsFlowing (report_back fails failed) p sane h =
        report-IsFlowing to_json start p.storage p.saved p.sent p.attempts fails failed
          p.delivery.item p.delivery.is_closed p.publisher p.results.item p.results.is_closed h
    move-IsFlowing close_delivery p sane h = record {
      valid = h.valid;
      in_order = h.in_order;
      flow = h.flow;
      opened = h.opened;
      delivered = h.delivered;
    }
    move-IsFlowing close_results p sane h = close_results-IsFlowing p h

    run-IsFlowing :
        (moves : List (Move Double)) (p : Pipeline)
        → AreSane moves p
        → IsFlowing start p
        → IsFlowing start (run to_json moves p)
    unfolding run
    run-IsFlowing [] p sane h = h
    run-IsFlowing (m ∷ moves) p (first, rest) h =
        run-IsFlowing moves (move to_json m p) rest (move-IsFlowing m p first h)

  new-IsFlowing : (db : Database) → IsValid db → IsFlowing db (new_pipeline db)
  new-IsFlowing db v = record {
    valid = v;
    in_order = append-nil (queue_of db.outbox);
    flow = tt;
    opened = refl;
    delivered = nothing;
  }

  -- However the steps of the storage worker, of the MQTT worker and of the closing of their queues follow
  -- each other, from valid tables: the tables stay valid; the ids that were pending at the start,
  -- followed by those saved since, are the ids marked as sent, followed by those still pending; every
  -- attempt to publish is one of the first entry that is not yet marked; and an entry is
  -- marked only when the last attempt before that was one of it that succeeded. So the broker is offered the measurements in the
  -- order of saving, a next one only when the one before it has got through, and none is passed over. SQLite's
  -- steps never return SQLITE_OK, its sqlite3_finalize adds no error when a row was updated, and its row ids are new.
  pub run-Delivered :
      (moves : List (Move Double)) (db : Database)
      → IsValid db
      → AreSane moves (new_pipeline db)
      → let p : Pipeline = run to_json moves (new_pipeline db) in
        IsValid p.storage.db
        × (queue_of db.outbox ++ p.saved ≡ p.sent ++ queue_of p.storage.db.outbox)
        × Delivered (queue_of db.outbox ++ p.saved) p.sent p.attempts
  run-Delivered moves db v sane =
      let h = run-IsFlowing db moves (new_pipeline db) sane (new-IsFlowing db v) in
      (h.valid, h.in_order, h.delivered)

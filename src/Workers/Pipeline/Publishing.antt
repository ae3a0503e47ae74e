-- ===== src/Workers/Pipeline/Publishing.antt =====
-- The steps of the MQTT worker keep what holds between steps.
use edgevision_gateway.Common.{
  ℕ, ◌≡◌, refl, sym, ap, subst, ◌∙◌, Bool, true, false, Option, none, some, List, [], ◌∷◌, ◌++◌,
}
use edgevision_gateway.Common.Int.{ℤ}
use edgevision_gateway.Domain.Measurement.{Measurement}
use edgevision_gateway.Storage.Tables.{Database}
use edgevision_gateway.Storage.Outbox.{Json, OutboxItem}
use edgevision_gateway.Workers.Pipeline.{
  PublishResult, publish_ok, publish_error, Report, take_one, put_one, Storage, Publisher, fetching,
  done, publishing, reporting, publisher_fetch, report_of, publisher_publish, publisher_report,
  closed_at_end,
}
use edgevision_gateway.Workers.Pipeline.Moves.{
  Attempt, Pipeline, fetch, publish, report_back, fetch_move, is_success, publish_move, report_move,
  move,
}
use edgevision_gateway.Workers.Pipeline.Flow.{tried, IsBacked, Flow, IsFlowing}

-- Behind the end of the worker.
finish-Flow :
    (inflight : Bool) (queue : List ℕ) (attempts : List Attempt) (publisher : Publisher)
    (job other : Option OutboxItem) (r : Option Report)
    → Flow inflight queue attempts publisher job r
    → Flow inflight queue attempts done other r
finish-Flow inflight queue attempts publisher job other none h = tt
finish-Flow inflight queue attempts fetching none other (some r) (i, h) = h
finish-Flow inflight queue attempts fetching (some job) other (some r) h = elim h [ ]
finish-Flow inflight queue attempts (publishing item) none other (some r) h = elim h [ ]
finish-Flow inflight queue attempts (publishing item) (some job) other (some r) h = elim h [ ]
finish-Flow inflight queue attempts (reporting report) none other (some r) h = elim h [ ]
finish-Flow inflight queue attempts (reporting report) (some job) other (some r) h = elim h [ ]
finish-Flow inflight queue attempts done job other (some r) h = h

module _ {Double : Type 0} (to_json : Measurement Double → Json) (start : Database) (w : Storage)
    (saved sent : List ℕ) (attempts : List Attempt) where
  -- The state by its parts.
  abbrev parts : Option OutboxItem → Bool → Publisher → Option Report → Bool → Pipeline
  parts job job_closed publisher r closed = record {
    storage = w;
    delivery = record { item = job; is_closed = job_closed };
    publisher = publisher;
    results = record { item = r; is_closed = closed };
    saved = saved;
    sent = sent;
    attempts = attempts;
  }

  pub fetch-IsFlowing :
      (fails : Bool) (job : Option OutboxItem) (job_closed : Bool) (publisher : Publisher)
      (r : Option Report) (closed : Bool)
      → IsFlowing start (parts job job_closed publisher r closed)
      → IsFlowing start (move to_json (fetch fails) (parts job job_closed publisher r closed))
  unfolding move fetch_move take_one publisher_fetch closed_at_end
  fetch-IsFlowing fails job job_closed done r closed h = h
  fetch-IsFlowing fails job job_closed (publishing item) r closed h = h
  fetch-IsFlowing fails job job_closed (reporting report) r closed h = h
  fetch-IsFlowing true job job_closed fetching r closed h = record {
    valid = h.valid;
    in_order = h.in_order;
    flow = finish-Flow _ _ attempts fetching job job r h.flow;
    opened = tt;
    delivered = h.delivered;
  }
  fetch-IsFlowing false (some item) job_closed fetching none closed h = record {
    valid = h.valid;
    in_order = h.in_order;
    flow = h.flow;
    opened = h.opened;
    delivered = h.delivered;
  }
  fetch-IsFlowing false (some item) job_closed fetching (some r) closed h = elim h.flow [ ]
  fetch-IsFlowing false none false fetching r closed h = h
  fetch-IsFlowing false none true fetching r closed h = record {
    valid = h.valid;
    in_order = h.in_order;
    flow = finish-Flow _ _ attempts fetching none none r h.flow;
    opened = tt;
    delivered = h.delivered;
  }

  -- The report that is made is backed by the attempt.
  report_of-IsBacked :
      (item : OutboxItem) (result : PublishResult) (clock : Option ℤ)
      → IsBacked
          (report_of item result clock).publish_result
          item.id
          (attempts ++ record { id = item.id; is_ok = is_success result } ∷ [])
  unfolding report_of
  report_of-IsBacked item (publish_error n) clock = tt
  report_of-IsBacked item publish_ok none = tt
  report_of-IsBacked item publish_ok (some now) = (attempts, refl)

  report_of_id :
      (item : OutboxItem) (result : PublishResult) (clock : Option ℤ)
      → (report_of item result clock).outbox_id ≡ item.id
  unfolding report_of
  report_of_id item (publish_error n) clock = refl
  report_of_id item publish_ok none = refl
  report_of_id item publish_ok (some now) = refl

  pub publish-IsFlowing :
      (is_made : Bool) (result : PublishResult) (clock : Option ℤ) (job : Option OutboxItem)
      (job_closed : Bool) (publisher : Publisher) (r : Option Report) (closed : Bool)
      → IsFlowing start (parts job job_closed publisher r closed)
      → IsFlowing start
          (move to_json (publish is_made result clock) (parts job job_closed publisher r closed))
  unfolding move publish_move publisher_publish closed_at_end
  publish-IsFlowing is_made result clock job job_closed done r closed h = h
  publish-IsFlowing is_made result clock job job_closed fetching r closed h = h
  publish-IsFlowing is_made result clock job job_closed (reporting report) r closed h = h
  publish-IsFlowing false result clock job job_closed (publishing item) r closed h = record {
    valid = h.valid;
    in_order = h.in_order;
    flow = finish-Flow _ _ attempts (publishing item) job job r h.flow;
    opened = tt;
    delivered = h.delivered;
  }
  publish-IsFlowing true result clock none job_closed (publishing item) none closed h =
      let (inflight, (later, at)) = h.flow in
      record {
        valid = h.valid;
        in_order = h.in_order;
        flow = (
          inflight,
          (
            (later, at ∙ ap (λ i. i ∷ later) (sym (report_of_id item result clock))),
            subst
                (λ i.
                  IsBacked (report_of item result clock).publish_result i
                    (attempts ++ record { id = item.id; is_ok = is_success result } ∷ []))
                (sym (report_of_id item result clock)) (report_of-IsBacked item result clock),
          ),
        );
        opened = h.opened;
        delivered =
            tried item.id (is_success result) later h.delivered
              (h.in_order ∙ ap (λ l. sent ++ l) at);
      }
  publish-IsFlowing true result clock none job_closed (publishing item) (some r) closed h =
      elim h.flow [ ]
  publish-IsFlowing true result clock (some job) job_closed (publishing item) r closed h =
      elim h.flow [ ]

  pub report-IsFlowing :
      (fails failed : Bool) (job : Option OutboxItem) (job_closed : Bool) (publisher : Publisher)
      (r : Option Report) (closed : Bool)
      → IsFlowing start (parts job job_closed publisher r closed)
      → IsFlowing start
          (move to_json (report_back fails failed) (parts job job_closed publisher r closed))
  unfolding move report_move put_one publisher_report closed_at_end
  report-IsFlowing fails failed job job_closed done r closed h = h
  report-IsFlowing fails failed job job_closed fetching r closed h = h
  report-IsFlowing fails failed job job_closed (publishing item) r closed h = h
  report-IsFlowing true failed job job_closed (reporting report) r closed h = record {
    valid = h.valid;
    in_order = h.in_order;
    flow = finish-Flow _ _ attempts (reporting report) job job r h.flow;
    opened = tt;
    delivered = h.delivered;
  }
  report-IsFlowing false failed job job_closed (reporting report) r true h =
      absurd (let e = h.opened in cc)
  report-IsFlowing false failed none job_closed (reporting report) none false h = record {
    valid = h.valid;
    in_order = h.in_order;
    flow = h.flow;
    opened = refl;
    delivered = h.delivered;
  }
  report-IsFlowing false failed none job_closed (reporting report) (some r) false h =
      elim h.flow [ ]
  report-IsFlowing false failed (some job) job_closed (reporting report) r false h = elim h.flow [ ]

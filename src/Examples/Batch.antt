-- ===== src/Examples/Batch.antt =====
-- A world for processor.rs: the journal of its calls. The broker refuses every second event.
use oxide_outbox.Prelude.{
  ℕ, ◌≡◌, refl, none, some, List, [], ◌∷◌, ◌++◌, ◌==◌, if◌then◌else◌, length,
}
use oxide_outbox.Exec.{Outcome, Exec, ok, err, broker_error, pure}
use oxide_outbox.Object.EventId.{load}
use oxide_outbox.Object.EventType
use oxide_outbox.Object.Payload
use oxide_outbox.Model.{Event, EventStatus, processing}
use oxide_outbox.Config.{default_config}
use oxide_outbox.Traits.{OutboxStorage, Transport, DlqHeap, default_quarantine_events}
use oxide_outbox.Processor.{OutboxProcessor, process_pending_events, event_publish}
use oxide_outbox.Processor.Trace.{
  Call, fetched, published, succeeded, failed, marked, is_ok, IsJournaled, Verdicts, events_of,
  calls, accepted, final_call,
}
use oxide_outbox.Processor.Batch.{process_pending_events-calls}

abbrev pub event : ℕ → EventStatus → ℕ → Event ℕ
event n status lock = record {
  id = load n;
  idempotency_token = none;
  event_type = EventType.new "paid";
  payload = Payload.new n;
  created_at = 1;
  locked_until = lock;
  status = status;
}

abbrev note : {A : Type 0} → Call → Outcome A → Exec (List Call) A
note c r journal = (r, journal ++ c ∷ [])

abbrev batch : List (Event ℕ)
batch = event 1 processing 9 ∷ event 2 processing 9 ∷ event 3 processing 9 ∷ []

abbrev storage : OutboxStorage ℕ (List Call)
storage = record {
  fetch_next_to_process = λ n. note (fetched n) (ok batch);
  update_status = λ ids st. note (marked ids st) (ok tt);
  delete_garbage = pure tt;
  wait_for_notification = λ channel. pure tt;
  quarantine_events = default_quarantine_events;
}

abbrev verdict : Event ℕ → Outcome (Unit {0})
verdict e = if e.payload.inner == 2 then err (broker_error "refused") else ok tt

abbrev transport : Transport ℕ (List Call)
transport = record { publish = λ e. note (published e.id (is_ok (verdict e))) (verdict e) }

abbrev heap : DlqHeap (List Call)
heap = record {
  record_failure = λ id. note (failed id) (ok tt);
  record_success = λ id. note (succeeded id) (ok tt);
  drain_exceeded = λ n. pure [];
}

abbrev pub processor : OutboxProcessor ℕ (List Call)
processor = record { storage = storage; publisher = transport; config = default_config }

journaled : IsJournaled (λ w. w) storage transport heap none
journaled = record {
  at_fetch = λ n w. refl;
  at_publish = λ e w. refl;
  at_success = λ id w. refl;
  at_failure = λ id w. refl;
  at_update = λ ids st w. refl;
  at_success_metrics = λ ty w. refl;
  at_error_metrics = λ ty w. refl;
}

process_pending_events-calls_example :
    (vs : Verdicts ℕ) × ((storage.fetch_next_to_process 100 []).0 ≡ ok (events_of vs))
    × (3 ≡ length vs)
    × ((process_pending_events (some heap) none processor []).1
        ≡ fetched 100 ∷ (calls vs ++ final_call (accepted vs)))
unfolding process_pending_events event_publish
process_pending_events-calls_example =
    process_pending_events-calls heap none processor (λ w. w) journaled [] 3 refl

-- ===== src/Tests/Batch.antt =====
-- The tests of outbox-core/src/processor.rs, with the feature `dlq` on and off.
use Prim.Native.String.{◌++◌}
use oxide_outbox.Prelude.{
  ℕ, suc, String, Bool, true, ◌&&◌, ◌≡◌, refl, none, some, List, [], ◌∷◌, map, contains, length,
  ◌==◌, if◌then◌else◌,
}
use oxide_outbox.Prelude.Int.{pos}
use oxide_outbox.Exec.{Outcome, pure, raise, database_error, broker_error}
use oxide_outbox.Object.EventId.{EventId, as_uuid}
use oxide_outbox.Object.EventType
use oxide_outbox.Object.Payload
use oxide_outbox.Runtime.{Runtime}
use oxide_outbox.Model.{Event, EventStatus, DlqEntry, sent, is_status, new_event}
use oxide_outbox.Config.{OutboxConfig, disabled}
use oxide_outbox.Traits.{DlqHeap, default_quarantine_events}
use oxide_outbox.Processor
use oxide_outbox.Processor.{OutboxProcessor, process_pending_events, event_publish}
use oxide_outbox.Tests.Mock.{Mock, mocked, is_met, exactly, never, checked, is_count, is_database}

pub data TestEvent : Type 0 where
  a : String → TestEvent

abbrev pub config : OutboxConfig TestEvent
config = record {
  batch_size = 100;
  retention_days = pos 7;
  gc_interval_secs = 3600;
  poll_interval_secs = 5;
  lock_timeout_mins = pos 5;
  idempotency_strategy = disabled;
  dlq_threshold = 10;
  dlq_interval_secs = 1;
}

abbrev counter : Runtime ℕ
counter = record {
  new_v4 = λ n. (n, suc n);
  now_v7 = λ n. (n, suc n);
  uuid_text = λ n. "018f";
  now_utc = λ n. (n, n);
}

abbrev digit : ℕ → String
digit n = if n == 1 then "1" else if n == 2 then "2" else "3"

-- `make_event`, with `n` as the new identifier.
abbrev pub make_event : ℕ → Event TestEvent
make_event n =
    (new_event counter (EventType.new ("t" ++ digit n)) (Payload.new (a ("v" ++ digit n))) none n).0

-- The calls of the doubles.
pub record Doubles : Type 0 where
  pub fetches : ℕ
  pub updates : ℕ
  pub publishes : ℕ
  pub successes : ℕ
  pub failures : ℕ
  pub drains : ℕ

abbrev start : Doubles
start = record { fetches = 0; updates = 0; publishes = 0; successes = 0; failures = 0; drains = 0 }

record Setup : Type 0 where
  fetch : Mock ℕ (List (Event TestEvent)) Doubles
  update : Mock (List EventId × EventStatus) (Unit {0}) Doubles
  publish : Mock (Event TestEvent) (Unit {0}) Doubles
  success : Mock EventId (Unit {0}) Doubles
  failure : Mock EventId (Unit {0}) Doubles
  drain : Mock ℕ (List DlqEntry) Doubles

-- No expectation at all.
abbrev bare : Setup
bare = record {
  fetch = never;
  update = never;
  publish = never;
  success = never;
  failure = never;
  drain = never;
}

abbrev processor : Setup → OutboxProcessor TestEvent Doubles
processor s =
    Processor.new
      (record {
        fetch_next_to_process =
            mocked s.fetch (λ w. w.fetches) (λ w. record w { fetches = suc w.fetches });
        update_status = λ ids st.
            mocked s.update (λ w. w.updates) (λ w. record w { updates = suc w.updates }) (ids, st);
        delete_garbage = pure tt;
        wait_for_notification = λ channel. pure tt;
        quarantine_events = default_quarantine_events;
      })
      (record {
        publish =
            mocked s.publish (λ w. w.publishes) (λ w. record w { publishes = suc w.publishes });
      })
      config

abbrev dlq : Setup → DlqHeap Doubles
dlq s = record {
  record_success =
      mocked s.success (λ w. w.successes) (λ w. record w { successes = suc w.successes });
  record_failure = mocked s.failure (λ w. w.failures) (λ w. record w { failures = suc w.failures });
  drain_exceeded = mocked s.drain (λ w. w.drains) (λ w. record w { drains = suc w.drains });
}

abbrev storage_met : Setup → Doubles → Bool
storage_met s w =
    is_met s.fetch w.fetches && is_met s.update w.updates && is_met s.publish w.publishes

abbrev heap_met : Setup → Doubles → Bool
heap_met s w =
    is_met s.success w.successes && is_met s.failure w.failures && is_met s.drain w.drains

-- Both compilations of a test.
abbrev passes : Setup → (Outcome ℕ → Bool) → Bool
passes s expected =
    let (plain, w) = process_pending_events none none (processor s) start in
    let (counted, v) = process_pending_events (some (dlq s)) none (processor s) start in
    expected plain && storage_met s w && expected counted && storage_met s v && heap_met s v

abbrev all_in : List ℕ → List ℕ → Bool
all_in [] ys = true
all_in (x ∷ xs) ys = contains ys x && all_in xs ys

-- The equality of two `HashSet`s of identifiers.
abbrev same_set : List EventId → List EventId → Bool
same_set xs ys =
    all_in (map as_uuid xs) (map as_uuid ys) && all_in (map as_uuid ys) (map as_uuid xs)

abbrev is_in : List (Event TestEvent) → EventId → Bool
is_in es id = contains (map (λ e. as_uuid e.id) es) (as_uuid id)

abbrev marks : List (Event TestEvent) → List EventId × EventStatus → Bool
marks es (ids, st) = same_set ids (map (λ e. e.id) es) && is_status st sent

abbrev pub empty_batch_returns_zero_and_skips_status_update : Bool
empty_batch_returns_zero_and_skips_status_update =
    passes (record bare { fetch = checked (λ limit. limit == 100) (exactly 1 (pure [])) })
      (is_count 0)

abbrev three : List (Event TestEvent)
three = make_event 1 ∷ make_event 2 ∷ make_event 3 ∷ []

abbrev pub all_publishes_succeed_updates_status_with_all_ids : Bool
all_publishes_succeed_updates_status_with_all_ids =
    passes
      (record bare {
        fetch = exactly 1 (pure three);
        update = checked (marks three) (exactly 1 (pure tt));
        publish = exactly 3 (pure tt);
        success = exactly 3 (pure tt);
      })
      (is_count 3)

abbrev pub partial_publish_failure_updates_only_successful : Bool
partial_publish_failure_updates_only_successful =
    let good = make_event 1 ∷ make_event 3 ∷ [] in
    let bad = make_event 2 ∷ [] in
    passes
      (record bare {
        fetch = exactly 1 (pure three);
        update = checked (λ x. (length x.0 == 2) && marks good x) (exactly 1 (pure tt));
        publish = record (exactly 3 (pure tt)) {
          returning = λ i e. if i == 1 then raise (broker_error "boom") else pure tt;
        };
        success = checked (is_in good) (exactly 2 (pure tt));
        failure = checked (is_in bad) (exactly 1 (pure tt));
      })
      (is_count 3)

abbrev pub all_publishes_fail_skips_status_update : Bool
all_publishes_fail_skips_status_update =
    passes
      (record bare {
        fetch = exactly 1 (pure (make_event 1 ∷ make_event 2 ∷ []));
        publish = exactly 2 (raise (broker_error "x"));
        failure = exactly 2 (pure tt);
      })
      (is_count 2)

abbrev pub fetch_error_propagates_without_publishing : Bool
fetch_error_propagates_without_publishing =
    passes (record bare { fetch = exactly 1 (raise (database_error "boom")) }) is_database

abbrev pub update_status_error_propagates_after_publish : Bool
update_status_error_propagates_after_publish =
    passes
      (record bare {
        fetch = exactly 1 (pure (make_event 1 ∷ []));
        update = exactly 1 (raise (database_error "boom"));
        publish = exactly 1 (pure tt);
        success = exactly 1 (pure tt);
      })
      is_database

all_pass :
    (empty_batch_returns_zero_and_skips_status_update
      && all_publishes_succeed_updates_status_with_all_ids
      && partial_publish_failure_updates_only_successful && all_publishes_fail_skips_status_update
      && fetch_error_propagates_without_publishing && update_status_error_propagates_after_publish)
    ≡ true
unfolding process_pending_events event_publish new_event
all_pass = refl

-- ===== src/Tests/Manager.antt =====
-- The doubles of the tests of outbox-core/src/manager.rs, and the schedules that they drive.
pub mod Shutdowns
pub mod Drains
use Prim.Native.String.{◌++◌}
use text.Mathlib.Text.{◌==◌}
use oxide_outbox.Prelude.{
  ℕ, suc, String, Bool, true, false, ◌&&◌, Option, none, some, List, [], ◌∷◌, map, contains,
  if◌then◌else◌,
}
use oxide_outbox.Prelude.Int.{pos}
use oxide_outbox.Exec.{Outcome, ok, Exec, pure, panic}
use oxide_outbox.Object.EventId.{EventId, as_uuid}
use oxide_outbox.Object.EventType
use oxide_outbox.Object.Payload
use oxide_outbox.Runtime.{Runtime, Shutdown}
use oxide_outbox.Model.{Event, EventStatus, new_event}
use oxide_outbox.Config.{OutboxConfig, disabled}
use oxide_outbox.Traits.{OutboxStorage, Transport, DlqHeap, default_quarantine_events}
use oxide_outbox.Loop.{Flow, go_on, stop, starved, unwound, Turn}
use oxide_outbox.Builder
use oxide_outbox.Builder.{build}
use oxide_outbox.Manager
use oxide_outbox.Manager.{OutboxManager, Arm}
use oxide_outbox.Tests.Mock.{Mock, mocked, is_met, exactly, never}

pub data SomeDomainEvent : Type 0 where
  some_event : String → SomeDomainEvent

abbrev pub default_config : OutboxConfig SomeDomainEvent
default_config = record {
  batch_size = 100;
  retention_days = pos 7;
  gc_interval_secs = 3600;
  poll_interval_secs = 5;
  lock_timeout_mins = pos 5;
  idempotency_strategy = disabled;
  dlq_threshold = 10;
  dlq_interval_secs = 1;
}

abbrev counter : Runtime ℕ
counter = record {
  new_v4 = λ n. (n, suc n);
  now_v7 = λ n. (n, suc n);
  uuid_text = λ n. "018f";
  now_utc = λ n. (n, n);
}

-- `Event::new`, with `n` as the new identifier.
abbrev pub event : ℕ → String → String → Event SomeDomainEvent
event n ty text = (new_event counter (EventType.new ty) (Payload.new (some_event text)) none n).0

-- The calls of the doubles, and the shutdown channel.
pub record Calls : Type 0 where
  pub waits : ℕ
  pub fetches : ℕ
  pub updates : ℕ
  pub publishes : ℕ
  pub deletes : ℕ
  pub notes : ℕ
  pub flag : Bool

abbrev pub start : Calls
start = record {
  waits = 0;
  fetches = 0;
  updates = 0;
  publishes = 0;
  deletes = 0;
  notes = 0;
  flag = false;
}

abbrev rx : Shutdown Calls
rx = record { value = λ w. w.flag; closed = λ w. false }

pub record Setup : Type 0 where
  pub wait : Mock String (Unit {0}) Calls
  pub fetch : Mock ℕ (List (Event SomeDomainEvent)) Calls
  pub update : Mock (List EventId × EventStatus) (Unit {0}) Calls
  pub delete : Mock (Unit {0}) (Unit {0}) Calls
  pub publish : Mock (Event SomeDomainEvent) (Unit {0}) Calls
  pub note : Mock EventId (Unit {0}) Calls

-- An expectation without `times`.
abbrev pub any_time : {A B : Type 0} → Exec Calls B → Mock A B Calls
any_time answer = record (exactly 0 answer) { times = none }

-- Waits and deletions are allowed, and nothing else.
abbrev pub bare : Setup
bare = record {
  wait = any_time (pure tt);
  fetch = never;
  update = never;
  delete = any_time (pure tt);
  publish = never;
  note = never;
}

-- `shutdown_tx.send(true)`, before an answer.
abbrev pub sending : {A : Type 0} → Exec Calls A → Exec Calls A
sending m w = m (record w { flag = true })

abbrev storage : Setup → OutboxStorage SomeDomainEvent Calls
storage s = record {
  fetch_next_to_process =
      mocked s.fetch (λ w. w.fetches) (λ w. record w { fetches = suc w.fetches });
  update_status = λ ids st.
      mocked s.update (λ w. w.updates) (λ w. record w { updates = suc w.updates }) (ids, st);
  delete_garbage = mocked s.delete (λ w. w.deletes) (λ w. record w { deletes = suc w.deletes }) tt;
  wait_for_notification = mocked s.wait (λ w. w.waits) (λ w. record w { waits = suc w.waits });
  quarantine_events = default_quarantine_events;
}

abbrev transport : Setup → Transport SomeDomainEvent Calls
transport s = record {
  publish = mocked s.publish (λ w. w.publishes) (λ w. record w { publishes = suc w.publishes });
}

abbrev dlq_heap : Setup → DlqHeap Calls
dlq_heap s = record {
  record_success = mocked s.note (λ w. w.notes) (λ w. record w { notes = suc w.notes });
  record_failure = mocked s.note (λ w. w.notes) (λ w. record w { notes = suc w.notes });
  drain_exceeded = λ n. panic "unexpected call";
}

abbrev manager : Bool → Setup → Outcome (OutboxManager SomeDomainEvent Calls)
manager dlq s =
    let b = Builder.shutdown_rx rx (
      Builder.config default_config
        (Builder.publisher (transport s) (Builder.storage (storage s) Builder.new))) in
    build dlq (if dlq then Builder.dlq_heap (dlq_heap s) b else b)

-- The collector's first tick, which is immediate.
abbrev collects : Setup → Calls → Calls
collects s w = ((storage s).delete_garbage w).1

abbrev turns : Setup → List Arm → List (Turn Arm Calls)
turns s [] = []
turns s (a ∷ arms) =
    record { others = collects s; arm = a } ∷ map (λ b. record { others = λ w. w; arm = b }) arms

abbrev stopped : Flow → Bool
stopped stop = true
stopped _ = false

abbrev met : Setup → Calls → Bool
met s w =
    is_met s.wait w.waits
    && is_met s.fetch w.fetches
    && is_met s.update w.updates
    && is_met s.publish w.publishes
    && is_met s.delete w.deletes

-- The manager returns `Ok` on the schedule, with every double content.
abbrev runs :
    Setup → (Calls → Bool) → Calls → List Arm → Outcome (OutboxManager SomeDomainEvent Calls) → Bool
runs s more w0 arms (ok m) =
    let (f, w) = Manager.run none m 5 (turns s arms) w0 in stopped f && met s w && more w
runs s more w0 arms _ = false

-- Both compilations of a test.
abbrev pub passes : Setup → (Calls → Bool) → Calls → List Arm → Bool
passes s more w0 arms =
    runs s more w0 arms (manager true s) && runs s more w0 arms (manager false s)

abbrev pub ids_of : List EventId → List ℕ
ids_of = map as_uuid

abbrev pub is_text : String → String → Bool
is_text s t = s == t

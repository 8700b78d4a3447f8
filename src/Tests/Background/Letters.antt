-- ===== src/Tests/Background/Letters.antt =====
-- The tests of outbox-core/src/dlq/processor.rs, on the schedules that they drive.
use oxide_outbox.Prelude.{suc, Bool, true, false, ◌&&◌, ◌≡◌, refl, none, List, [], ◌∷◌, leb, ◌==◌}
use oxide_outbox.Prelude.Int.{pos}
use oxide_outbox.Exec.{pure, raise, database_error}
use oxide_outbox.Object.EventId.{load, as_uuid}
use oxide_outbox.Model.{DlqEntry, new_entry}
use oxide_outbox.Config.{OutboxConfig, disabled}
use oxide_outbox.Traits.{DlqHeap}
use oxide_outbox.Loop.{Flow, Turn}
use oxide_outbox.Gc.{Arm, tick, changed}
use oxide_outbox.Exec.{panic}
use oxide_outbox.Reaper
use oxide_outbox.Reaper.{reap}
use oxide_outbox.Tests.Mock.{mocked, checked}
use oxide_outbox.Tests.Background.{
  TestPayload, Calls, Setup, bare, any_time, storage, met, nothing, send, drop, at, stopped,
  running, start, rx,
}

abbrev pub config : OutboxConfig TestPayload
config = record {
  batch_size = 100;
  retention_days = pos 7;
  gc_interval_secs = 3600;
  poll_interval_secs = 5;
  lock_timeout_mins = pos 5;
  idempotency_strategy = disabled;
  dlq_threshold = 10;
  dlq_interval_secs = 3600;
}

abbrev cfg : OutboxConfig TestPayload
cfg = record config { dlq_interval_secs = 60 }

abbrev heap : Setup → DlqHeap Calls
heap s = record {
  record_failure = λ id. panic "unexpected call";
  record_success = λ id. panic "unexpected call";
  drain_exceeded = mocked s.drain (λ w. w.drains) (λ w. record w { drains = suc w.drains });
}

abbrev run : OutboxConfig TestPayload → Setup → List (Turn Arm Calls) → Flow × Calls
run c s ts = Reaper.run (Reaper.new (heap s) (storage s) c rx) ts start

-- `quiet_heap` and `empty_storage`
abbrev pub quiet : Setup
quiet = record bare { drain = any_time (pure []) }

abbrev pub run_exits_when_shutdown_flag_is_set_to_true : Bool
run_exits_when_shutdown_flag_is_set_to_true =
    stopped (run config quiet (at (send true) changed ∷ [])).0
    && stopped (run config quiet (at nothing tick ∷ at (send true) changed ∷ [])).0

abbrev pub run_exits_when_sender_is_dropped : Bool
run_exits_when_sender_is_dropped =
    stopped (run config quiet (at drop changed ∷ [])).0
    && stopped (run config quiet (at nothing tick ∷ at drop changed ∷ [])).0

abbrev pub run_does_not_exit_on_shutdown_value_set_to_false : Bool
run_does_not_exit_on_shutdown_value_set_to_false =
    running (run config quiet (at (send false) changed ∷ [])).0
    && running (run config quiet (at nothing tick ∷ at (send false) changed ∷ [])).0

abbrev entry : DlqEntry
entry = new_entry (load 7) 12 none

abbrev is_entry : List DlqEntry → Bool
is_entry (e ∷ []) = as_uuid e.id == as_uuid entry.id
is_entry _ = false

-- A double that is called as it does not expect panics, and unwinds the loop.
abbrev pub run_drains_heap_and_forwards_to_quarantine_events : Bool
run_drains_heap_and_forwards_to_quarantine_events =
    let s = record bare {
      drain = checked (λ t. t == 10) (any_time (pure (entry ∷ [])));
      quarantine = checked is_entry (any_time (pure tt));
    } in
    let (f, w) = run cfg s (at nothing tick ∷ at (send true) changed ∷ []) in
    stopped f && (w.quarantines == 1)

abbrev pub run_skips_quarantine_when_drain_returns_empty_batch : Bool
run_skips_quarantine_when_drain_returns_empty_batch =
    let (f, w) = run cfg quiet (at nothing tick ∷ at (send true) changed ∷ []) in
    stopped f && met quiet w

abbrev pub run_swallows_quarantine_errors_and_keeps_running : Bool
run_swallows_quarantine_errors_and_keeps_running =
    let s = record bare {
      drain = any_time (pure (new_entry (load 7) 15 none ∷ []));
      quarantine = any_time (raise (database_error "boom"));
    } in
    let (f, w) = run cfg s (at nothing tick ∷ at nothing tick ∷ at (send true) changed ∷ []) in
    stopped f && leb 2 w.drains

all_pass :
    (run_exits_when_shutdown_flag_is_set_to_true && run_exits_when_sender_is_dropped
      && run_does_not_exit_on_shutdown_value_set_to_false
      && run_drains_heap_and_forwards_to_quarantine_events
      && run_skips_quarantine_when_drain_returns_empty_batch
      && run_swallows_quarantine_errors_and_keeps_running)
    ≡ true
unfolding Reaper.run reap
all_pass = refl

-- ===== src/Tests/Manager/Shutdowns.antt =====
-- The tests of outbox-core/src/manager.rs on recovery and shutdown.
use oxide_outbox.Prelude.{Bool, true, ◌&&◌, ◌≡◌, refl, [], ◌∷◌, ◌==◌, if◌then◌else◌}
use oxide_outbox.Exec.{pure, raise, infrastructure_error, database_error}
use oxide_outbox.Builder.{build}
use oxide_outbox.Manager
use oxide_outbox.Manager.{Arm, notified, tick, changed, drain, round}
use oxide_outbox.Processor.{process_pending_events, event_publish}
use oxide_outbox.Tests.Mock.{exactly}
use oxide_outbox.Tests.Manager.{Calls, start, bare, any_time, sending, passes}

abbrev all : Calls → Bool
all w = true

abbrev pub test_recovery_after_storage_error : Bool
test_recovery_after_storage_error =
    let s = record bare {
      wait = record (exactly 2 (pure tt)) {
        returning = λ i c.
            if i == 0 then raise (infrastructure_error "Connection lost") else sending (pure tt);
      };
      fetch = any_time (pure []);
      delete = exactly 1 (pure tt);
    } in
    passes s all start (notified ∷ notified ∷ [])
    && passes s all start (tick ∷ notified ∷ notified ∷ [])
    && passes s all start (notified ∷ tick ∷ notified ∷ [])

abbrev pub shutdown_set_before_run_exits_without_fetch : Bool
shutdown_set_before_run_exits_without_fetch =
    let sent = record start { flag = true } in
    passes bare all sent (notified ∷ [])
    && passes bare all sent (tick ∷ [])
    && passes bare all sent (changed ∷ [])

abbrev pub fetch_error_inside_loop_is_recoverable : Bool
fetch_error_inside_loop_is_recoverable =
    let s = record bare {
      fetch = record (any_time (pure [])) {
        returning = λ i n. if i == 0 then raise (database_error "transient") else sending (pure []);
      };
    } in
    passes s all start (notified ∷ notified ∷ notified ∷ [])
    && passes s all start (tick ∷ notified ∷ changed ∷ [])

all_pass :
    (test_recovery_after_storage_error && shutdown_set_before_run_exits_without_fetch
      && fetch_error_inside_loop_is_recoverable)
    ≡ true
unfolding Manager.run round drain build process_pending_events event_publish
all_pass = refl

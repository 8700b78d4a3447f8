-- ===== src/Tests/Background/Collector.antt =====
-- The tests of outbox-core/src/gc.rs. A test of the loop holds on the schedules that it drives: the
-- first tick may run before the shutdown is seen, or not.
use oxide_outbox.Prelude.{Bool, true, false, ◌&&◌, ◌≡◌, refl, List, [], ◌∷◌, leb}
use oxide_outbox.Exec.{pure, raise, database_error}
use oxide_outbox.Loop.{Flow, Turn}
use oxide_outbox.Gc
use oxide_outbox.Gc.{GarbageCollector, Arm, tick, changed, collect_garbage}
use oxide_outbox.Tests.Mock.{exactly, is_ok, is_database}
use oxide_outbox.Tests.Background.{
  TestPayload, Calls, Setup, bare, any_time, storage, met, nothing, send, drop, at, stopped,
  running, start, rx,
}

abbrev gc : Setup → GarbageCollector TestPayload Calls
gc s = Gc.new (storage s)

abbrev run : Setup → List (Turn Arm Calls) → Flow × Calls
run s ts = Gc.run (gc s) rx ts start

abbrev pub collect_garbage_ok_proxies_to_delete_garbage : Bool
collect_garbage_ok_proxies_to_delete_garbage =
    let s = record bare { delete = exactly 1 (pure tt) } in
    let (r, w) = collect_garbage (gc s) start in is_ok r && met s w

abbrev pub collect_garbage_propagates_storage_error : Bool
collect_garbage_propagates_storage_error =
    let s = record bare { delete = exactly 1 (raise (database_error "gc failed")) } in
    let (r, w) = collect_garbage (gc s) start in is_database r && met s w

abbrev pub collect_garbage_invokes_storage_each_call_with_no_caching : Bool
collect_garbage_invokes_storage_each_call_with_no_caching =
    let s = record bare { delete = exactly 2 (pure tt) } in
    let (r1, w1) = collect_garbage (gc s) start in
    let (r2, w2) = collect_garbage (gc s) w1 in is_ok r1 && is_ok r2 && met s w2

abbrev quiet : Setup
quiet = record bare { delete = any_time (pure tt) }

abbrev pub run_exits_when_shutdown_flag_is_set_to_true : Bool
run_exits_when_shutdown_flag_is_set_to_true =
    stopped (run quiet (at (send true) changed ∷ [])).0
    && stopped (run quiet (at nothing tick ∷ at (send true) changed ∷ [])).0

abbrev pub run_exits_when_sender_is_dropped : Bool
run_exits_when_sender_is_dropped =
    stopped (run quiet (at drop changed ∷ [])).0
    && stopped (run quiet (at nothing tick ∷ at drop changed ∷ [])).0

abbrev pub run_does_not_exit_on_shutdown_value_set_to_false : Bool
run_does_not_exit_on_shutdown_value_set_to_false =
    running (run quiet (at (send false) changed ∷ [])).0
    && running (run quiet (at nothing tick ∷ at (send false) changed ∷ [])).0

abbrev pub run_invokes_collect_garbage_on_each_interval_tick : Bool
run_invokes_collect_garbage_on_each_interval_tick =
    let (_, w) =
      run quiet
        (at nothing tick ∷ at nothing tick ∷ at nothing tick ∷ at (send true) changed ∷ []) in
    leb 2 w.deletes

abbrev pub run_swallows_collect_garbage_errors_and_keeps_running : Bool
run_swallows_collect_garbage_errors_and_keeps_running =
    let s = record bare { delete = any_time (raise (database_error "transient")) } in
    let (f, w) = run s (at nothing tick ∷ at nothing tick ∷ at (send true) changed ∷ []) in
    stopped f && leb 2 w.deletes

all_pass :
    (collect_garbage_ok_proxies_to_delete_garbage && collect_garbage_propagates_storage_error
      && collect_garbage_invokes_storage_each_call_with_no_caching
      && run_exits_when_shutdown_flag_is_set_to_true && run_exits_when_sender_is_dropped
      && run_does_not_exit_on_shutdown_value_set_to_false
      && run_invokes_collect_garbage_on_each_interval_tick
      && run_swallows_collect_garbage_errors_and_keeps_running)
    ≡ true
unfolding Gc.run
all_pass = refl

-- ===== src/Examples/Tasks.antt =====
-- A world for the background loops: counters and the shutdown value. The storage always fails its
-- cleanup, the heap always has one entry, and the backlog is a number.
use oxide_outbox.Prelude.{
  ℕ, suc, ◌-◌, ◌≡◌, refl, Bool, true, false, none, some, [], ◌∷◌, if◌then◌else◌, ◌==◌,
}
use oxide_outbox.Exec.{ok, err, database_error, pure, raise}
use oxide_outbox.Object.EventId.{load}
use oxide_outbox.Runtime.{Shutdown}
use oxide_outbox.Model.{new_entry, processing}
use oxide_outbox.Config.{default_config}
use oxide_outbox.Traits.{OutboxStorage, Transport, DlqHeap}
use oxide_outbox.Loop.{stop, Turn}
use oxide_outbox.Loop.Stopping.{Survives, StopsOnSignal}
use oxide_outbox.Gc
use oxide_outbox.Gc.{GarbageCollector, tick, changed}
use oxide_outbox.Gc.Loop.{IsCounted, gc_run-ticks}
use oxide_outbox.Reaper
use oxide_outbox.Reaper.{DlqProcessor}
use oxide_outbox.Reaper.Loop.{IsReturning, IsDrainCounted, reaper_run-Survives, reaper_run-ticks}
use oxide_outbox.Manager
use oxide_outbox.Manager.{OutboxManager, drain}
use oxide_outbox.Manager.Stopping.{run-StopsOnSignal, run-Down}
use oxide_outbox.Examples.Batch.{event}

record World : Type 0 where
  backlog : ℕ
  work : ℕ
  down : Bool

abbrev rx : Shutdown World
rx = record { value = λ w. w.down; closed = λ w. false }

-- Each fetch hands out one event, while there are any.
abbrev storage : OutboxStorage ℕ World
storage = record {
  fetch_next_to_process = λ n w. if w.backlog == 0 then (ok [], w) else (
    ok (event 1 processing 9 ∷ []),
    record w { backlog = w.backlog - 1; work = suc w.work },
  );
  update_status = λ ids st. pure tt;
  delete_garbage = λ w. (err (database_error "gone"), record w { work = suc w.work });
  wait_for_notification = λ channel. pure tt;
  quarantine_events = λ es. raise (database_error "gone");
}

abbrev heap : DlqHeap World
heap = record {
  record_failure = λ id. pure tt;
  record_success = λ id. pure tt;
  drain_exceeded = λ n w. (ok (new_entry (load 1) n none ∷ []), record w { work = suc w.work });
}

abbrev transport : Transport ℕ World
transport = record { publish = λ e. pure tt }

abbrev gc : GarbageCollector ℕ World
gc = record { storage = storage }

abbrev reaper : DlqProcessor ℕ World
reaper = record { heap = heap; storage = storage; config = default_config; shutdown_rx = rx }

abbrev manager : OutboxManager ℕ World
manager = record {
  storage = storage;
  publisher = transport;
  config = default_config;
  shutdown_rx = rx;
  dlq_heap = some heap;
}

abbrev start : World
start = record { backlog = 2; work = 0; down = false }

abbrev idle : Turn Gc.Arm World
idle = record { others = λ w. w; arm = tick }

abbrev raise_shutdown : Turn Gc.Arm World
raise_shutdown = record { others = λ w. record w { down = true }; arm = changed }

gc-IsCounted : IsCounted gc rx (λ (w : World). w.work)
gc-IsCounted = record { returns = λ w s h. cc; counts = λ w. refl; silent = λ w h. h }

gc_run-ticks_example :
    let done = Gc.run gc rx (idle ∷ idle ∷ raise_shutdown ∷ idle ∷ []) start in
    (done.0 ≡ stop) × (done.1.work ≡ 2)
gc_run-ticks_example =
    gc_run-ticks gc rx (λ w. w.work) (idle ∷ idle ∷ []) raise_shutdown (idle ∷ []) start
      gc-IsCounted (((λ w h. h), (λ w. refl)), (((λ w h. h), (λ w. refl)), tt)) refl (λ v. refl)
      (λ v. refl) refl

reaper-IsReturning : IsReturning reaper
reaper-IsReturning = record { drains = λ w s h. cc; quarantines = λ es w s h. cc }

reaper_run-Survives_example :
    let done = Reaper.run reaper (idle ∷ raise_shutdown ∷ []) start in Survives rx done.0 done.1
reaper_run-Survives_example =
    reaper_run-Survives reaper (idle ∷ raise_shutdown ∷ []) start reaper-IsReturning

reaper-IsDrainCounted : IsDrainCounted reaper (λ (w : World). w.work)
reaper-IsDrainCounted = record {
  returning = reaper-IsReturning;
  drain_counts = λ w. refl;
  quarantine_keeps = λ es w. refl;
  drain_silent = λ w h. h;
  quarantine_silent = λ es w h. h;
}

reaper_run-ticks_example :
    let done = Reaper.run reaper (idle ∷ idle ∷ raise_shutdown ∷ idle ∷ []) start in
    (done.0 ≡ stop) × (done.1.work ≡ 2)
reaper_run-ticks_example =
    reaper_run-ticks reaper (λ w. w.work) (idle ∷ idle ∷ []) raise_shutdown (idle ∷ []) start
      reaper-IsDrainCounted (((λ w h. h), (λ w. refl)), (((λ w h. h), (λ w. refl)), tt)) refl
      (λ v. refl) (λ v. refl) refl

abbrev poll : Turn Manager.Arm World
poll = record { others = λ w. w; arm = Manager.tick }

abbrev notice : Turn Manager.Arm World
notice = record { others = λ w. record w { down = true }; arm = Manager.changed }

run-StopsOnSignal_example :
    let done = Manager.run none manager 3 (poll ∷ notice ∷ []) start in
    StopsOnSignal rx done.0 done.1
run-StopsOnSignal_example = run-StopsOnSignal none manager 3 (poll ∷ notice ∷ []) start

abbrev down_already : World
down_already = record { backlog = 2; work = 5; down = true }

run-Down_example : (Manager.run none manager 3 (poll ∷ notice ∷ []) down_already).1.work ≡ 5
run-Down_example =
    run-Down none manager (λ w. w.work) 3 (poll ∷ notice ∷ []) down_already (λ k v h. h)
      ((λ v h. h), ((λ v h. (refl, h.1)), tt)) refl

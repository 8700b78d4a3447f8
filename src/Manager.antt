-- ===== src/Manager.antt =====
-- outbox-core/src/manager.rs: the worker loop. The tasks that `run` spawns beside it are
-- `oxide_outbox.Gc.run` and `oxide_outbox.Reaper.run`.
pub mod Drain
pub mod Stopping
use oxide_outbox.Prelude.{ℕ, zero, suc, Bool, Option, List, if◌then◌else◌}
use oxide_outbox.Exec.{Outcome, ok, err, panicked}
use oxide_outbox.Runtime.{Shutdown, Metrics}
use oxide_outbox.Config.{OutboxConfig}
use oxide_outbox.Traits.{OutboxStorage, Transport, DlqHeap}
use oxide_outbox.Processor
use oxide_outbox.Processor.{OutboxProcessor, process_pending_events}
use oxide_outbox.Loop.{Flow, go_on, stop, starved, unwound, Turn, resume, on_changed, run_loop}

-- The heap is there under the feature `dlq`.
pub record OutboxManager (P W : Type 0) : Type 0 where
  pub storage : OutboxStorage P W
  pub publisher : Transport P W
  pub config : OutboxConfig P
  pub shutdown_rx : Shutdown W
  pub dlq_heap : Option (DlqHeap W)

pub data Arm : Type 0 where
  notified tick changed : Arm

-- The `match` in the inner loop: `Ok(0)` and an error leave it, `Ok(count)` goes round again.
-- After an error the code sleeps for 5 seconds; what happens meanwhile is the next turn's.
abbrev pub after_batch : {W : Type 0} → Outcome ℕ × W → (W → Flow × W) → Flow × W
after_batch (ok zero, w) again = (go_on, w)
after_batch (ok (suc count), w) again = again w
after_batch (err e, w) again = (go_on, w)
after_batch (panicked s, w) again = (unwound s, w)

-- The arm of `wait_for_notification`: on an error the code sleeps and skips the inner loop.
unfoldable pub on_signal : {W : Type 0} → Outcome (Unit {0}) × W → (W → Flow × W) → Flow × W
on_signal (ok _, w) inner = inner w
on_signal (err e, w) inner = (go_on, w)
on_signal (panicked s, w) inner = (unwound s, w)

module _ {P W : Type 0} where
  -- `OutboxManager::new`, with the heap under the feature `dlq`
  abbrev pub new :
      OutboxStorage P W
      → Transport P W
      → OutboxConfig P
      → Option (DlqHeap W)
      → Shutdown W
      → OutboxManager P W
  new storage publisher config dlq_heap shutdown_rx = record {
    storage = storage;
    publisher = publisher;
    config = config;
    shutdown_rx = shutdown_rx;
    dlq_heap = dlq_heap;
  }

  -- The processor that `run` makes.
  abbrev pub processor : OutboxManager P W → OutboxProcessor P W
  processor m = Processor.new m.storage m.publisher m.config

  -- The inner loop, on fuel.
  unfoldable pub drain : Option (Metrics W) → OutboxManager P W → ℕ → W → Flow × W
  drain metrics m zero w = (starved, w)
  drain metrics m (suc fuel) w =
      let again =
        after_batch (process_pending_events m.dlq_heap metrics (processor m) w)
          (λ v. drain metrics m fuel v) in
      if m.shutdown_rx.value w then (stop, w) else again

  -- One round of the outer loop.
  unfoldable pub round : Option (Metrics W) → OutboxManager P W → ℕ → Arm → W → Flow × W
  unfolding on_signal
  round metrics m fuel notified w =
      on_signal (m.storage.wait_for_notification "outbox_event" w) (drain metrics m fuel)
  round metrics m fuel tick w = drain metrics m fuel w
  round metrics m fuel changed w = resume (on_changed m.shutdown_rx w) (drain metrics m fuel)

  -- `OutboxManager::run`
  unfoldable pub run : Option (Metrics W) → OutboxManager P W → ℕ → List (Turn Arm W) → W → Flow × W
  unfolding run_loop
  run metrics m fuel = run_loop (round metrics m fuel)

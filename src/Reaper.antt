-- ===== src/Reaper.antt =====
-- outbox-core/src/dlq/processor.rs: the dead-letter task (feature `dlq`).
pub mod Loop
use oxide_outbox.Prelude.{List, [], ◌∷◌}
use oxide_outbox.Exec.{Outcome, ok, err, panicked, Exec}
use oxide_outbox.Runtime.{Shutdown}
use oxide_outbox.Model.{DlqEntry}
use oxide_outbox.Config.{OutboxConfig}
use oxide_outbox.Traits.{OutboxStorage, DlqHeap}
use oxide_outbox.Gc.{Arm, tick, changed}
use oxide_outbox.Loop.{Flow, go_on, unwound, Turn, on_changed, swallow, run_loop}

pub record DlqProcessor (P W : Type 0) : Type 0 where
  pub heap : DlqHeap W
  pub storage : OutboxStorage P W
  pub config : OutboxConfig P
  pub shutdown_rx : Shutdown W

module _ {P W : Type 0} where
  -- `DlqProcessor::new`
  abbrev pub new : DlqHeap W → OutboxStorage P W → OutboxConfig P → Shutdown W → DlqProcessor P W
  new heap storage config shutdown_rx = record {
    heap = heap;
    storage = storage;
    config = config;
    shutdown_rx = shutdown_rx;
  }

  -- The `match` on what was drained.
  pub quarantine : DlqProcessor P W → Outcome (List DlqEntry) × W → Flow × W
  quarantine d (ok [], w) = (go_on, w)
  quarantine d (ok (e ∷ es), w) = swallow (d.storage.quarantine_events (e ∷ es) w)
  quarantine d (err e, w) = (go_on, w)
  quarantine d (panicked s, w) = (unwound s, w)

  -- The arm of `interval.tick()`.
  unfoldable pub reap : DlqProcessor P W → W → Flow × W
  unfolding quarantine
  reap d w = quarantine d (d.heap.drain_exceeded d.config.dlq_threshold w)

  unfoldable pub round : DlqProcessor P W → Arm → W → Flow × W
  round d tick w = reap d w
  round d changed w = on_changed d.shutdown_rx w

  -- `DlqProcessor::run`
  unfoldable pub run : DlqProcessor P W → List (Turn Arm W) → W → Flow × W
  unfolding run_loop round
  run d = run_loop (round d)

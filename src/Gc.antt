-- ===== src/Gc.antt =====
-- outbox-core/src/gc.rs: the garbage-collection task.
pub mod Ticks
pub mod Loop
use oxide_outbox.Prelude.{List}
use oxide_outbox.Exec.{Exec}
use oxide_outbox.Runtime.{Shutdown}
use oxide_outbox.Traits.{OutboxStorage}
use oxide_outbox.Loop.{Flow, Turn, on_changed, swallow, run_loop}

pub record GarbageCollector (P W : Type 0) : Type 0 where
  pub storage : OutboxStorage P W

-- The arms of the `select!` of the two background tasks.
pub data Arm : Type 0 where
  tick changed : Arm

module _ {P W : Type 0} where
  -- `GarbageCollector::new`
  abbrev pub new : OutboxStorage P W → GarbageCollector P W
  new storage = record { storage = storage }

  abbrev pub collect_garbage : GarbageCollector P W → Exec W (Unit {0})
  collect_garbage gc = gc.storage.delete_garbage

  unfoldable pub round : GarbageCollector P W → Shutdown W → Arm → W → Flow × W
  round gc rx tick w = swallow (collect_garbage gc w)
  round gc rx changed w = on_changed rx w

  -- `GarbageCollector::run`
  unfoldable pub run : GarbageCollector P W → Shutdown W → List (Turn Arm W) → W → Flow × W
  unfolding run_loop round
  run gc rx = run_loop (round gc rx)

-- ===== src/Gc/Loop.antt =====
-- `GarbageCollector::run` in gc.rs.
use oxide_outbox.Prelude.{ℕ, suc, ◌+◌, true, false, ◌≡◌, ◌≢◌, refl, List, ◌∷◌, ◌++◌, String}
use oxide_outbox.Exec.{Outcome, ok, err, panicked}
use oxide_outbox.Exec.Laws.{Returns}
use oxide_outbox.Runtime.{Shutdown}
use oxide_outbox.Loop.{go_on, stop, Turn, signalled, swallow}
use oxide_outbox.Loop.Stopping.{Survives, run_loop-post, on_changed-Survives}
use oxide_outbox.Gc.{GarbageCollector, Arm, tick, changed, collect_garbage, round, run}
use oxide_outbox.Gc.Ticks.{Quiet, IsWork, ticks, run_loop-ticks}

pub swallow-go_on :
    {A W : Type 0} (r : Outcome A × W)
    → ((s : String) → r.0 ≢ panicked s)
    → ((swallow r).0 ≡ go_on) × ((swallow r).1 ≡ r.1)
swallow-go_on (ok a, w) h = (refl, refl)
swallow-go_on (err e, w) h = (refl, refl)
swallow-go_on (panicked s, w) h = absurd (h s refl)

round-Survives :
    {P W : Type 0} (gc : GarbageCollector P W) (rx : Shutdown W)
    → Returns (collect_garbage gc)
    → (arm : Arm) (w : W) → Survives rx (round gc rx arm w).0 (round gc rx arm w).1
unfolding round
round-Survives gc rx h tick w = rw (swallow-go_on (collect_garbage gc w) (h w)).0 tt
round-Survives gc rx h changed w = on_changed-Survives rx w

-- Over every schedule, whatever the other tasks do and however often `delete_garbage` returns an
-- error, the collector's loop is still running or has returned with the shutdown channel signalled
-- or closed. `delete_garbage` does not panic.
gc_run-Survives :
    {P W : Type 0} (gc : GarbageCollector P W) (rx : Shutdown W) (ts : List (Turn Arm W)) (w : W)
    → Returns (collect_garbage gc)
    → Survives rx (run gc rx ts w).0 (run gc rx ts w).1
unfolding run
gc_run-Survives gc rx ts w h =
    run_loop-post (round gc rx) (Survives rx) (λ v. tt) (round-Survives gc rx h) ts w

-- A storage whose cleanup is counted by a view of the world, and leaves the channel alone.
pub record IsCounted {P W : Type 0} (gc : GarbageCollector P W) (rx : Shutdown W) (count : W → ℕ)
    : Type 0 where
  pub returns : Returns (collect_garbage gc)
  pub counts : (w : W) → count (collect_garbage gc w).1 ≡ suc (count w)
  pub silent : (w : W) → signalled rx w ≡ false → signalled rx (collect_garbage gc w).1 ≡ false

collect-IsWork :
    {P W : Type 0} (gc : GarbageCollector P W) (rx : Shutdown W) (count : W → ℕ)
    → IsCounted gc rx count
    → IsWork rx count (round gc rx tick)
unfolding round
collect-IsWork gc rx count c = record {
  goes_on = λ w. (swallow-go_on (collect_garbage gc w) (c.returns w)).0;
  counts = λ w. rw (swallow-go_on (collect_garbage gc w) (c.returns w)).1 (c.counts w);
  silent = λ w h. rw (swallow-go_on (collect_garbage gc w) (c.returns w)).1 (c.silent w h);
}

-- Up to the first shutdown that it observes the collector has called `delete_garbage` exactly once
-- for each tick, and then it returns, whatever the rest of the schedule holds. Before that turn no
-- task signals a shutdown, and no other task calls `delete_garbage`, which does not panic.
pub gc_run-ticks :
    {P W : Type 0} (gc : GarbageCollector P W) (rx : Shutdown W) (count : W → ℕ)
    (quiet : List (Turn Arm W)) (last : Turn Arm W) (after : List (Turn Arm W)) (w : W)
    → IsCounted gc rx count
    → Quiet rx count quiet
    → last.arm ≡ changed
    → ((v : W) → signalled rx (last.others v) ≡ true)
    → ((v : W) → count (last.others v) ≡ count v)
    → signalled rx w ≡ false
    → let done = run gc rx (quiet ++ last ∷ after) w in
      (done.0 ≡ stop) × (count done.1 ≡ ticks quiet + count w)
unfolding run
gc_run-ticks gc rx count quiet last after w c =
    run_loop-ticks rx count (round gc rx) (collect-IsWork gc rx count c) (unfold round in λ v. refl)
      quiet last after w

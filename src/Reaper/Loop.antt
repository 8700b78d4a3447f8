-- ===== src/Reaper/Loop.antt =====
-- `DlqProcessor::run` in dlq/processor.rs.
use oxide_outbox.Prelude.{
  ℕ, suc, ◌+◌, true, false, ◌≡◌, ◌≢◌, refl, ◌∙◌, List, [], ◌∷◌, ◌++◌, String,
}
use oxide_outbox.Exec.{Outcome, ok, err, panicked}
use oxide_outbox.Model.{DlqEntry}
use oxide_outbox.Loop.{go_on, stop, Turn, signalled}
use oxide_outbox.Loop.Stopping.{Survives, run_loop-post, on_changed-Survives}
use oxide_outbox.Gc.{Arm, tick, changed}
use oxide_outbox.Exec.Laws.{Returns}
use oxide_outbox.Gc.Loop.{swallow-go_on}
use oxide_outbox.Gc.Ticks.{Quiet, IsWork, ticks, run_loop-ticks}
use oxide_outbox.Reaper.{DlqProcessor, quarantine, reap, round, run}

-- The heap and the storage return: errors are allowed, panics are not.
pub record IsReturning {P W : Type 0} (d : DlqProcessor P W) : Type 0 where
  pub drains : Returns (d.heap.drain_exceeded d.config.dlq_threshold)
  pub quarantines : (es : List DlqEntry) → Returns (d.storage.quarantine_events es)

quarantine-go_on :
    {P W : Type 0} (d : DlqProcessor P W)
    → IsReturning d
    → (r : Outcome (List DlqEntry) × W) → ((s : String) → r.0 ≢ panicked s)
    → (quarantine d r).0 ≡ go_on
unfolding quarantine
quarantine-go_on d c (ok [], w) h = refl
quarantine-go_on d c (ok (e ∷ es), w) h = (swallow-go_on _ (c.quarantines (e ∷ es) w)).0
quarantine-go_on d c (err e, w) h = refl
quarantine-go_on d c (panicked s, w) h = absurd (h s refl)

reap-go_on : {P W : Type 0} (d : DlqProcessor P W) → IsReturning d → (w : W) → (reap d w).0 ≡ go_on
unfolding reap
reap-go_on d c w = quarantine-go_on d c _ (c.drains w)

round-Survives :
    {P W : Type 0} (d : DlqProcessor P W)
    → IsReturning d
    → (arm : Arm) (w : W) → Survives d.shutdown_rx (round d arm w).0 (round d arm w).1
unfolding round
round-Survives d c tick w = rw (reap-go_on d c w) tt
round-Survives d c changed w = on_changed-Survives d.shutdown_rx w

-- Over every schedule, whatever the other tasks do and however often `drain_exceeded` and
-- `quarantine_events` return errors, the dead-letter loop is still running or has returned with
-- the shutdown channel signalled or closed. Neither call panics.
pub reaper_run-Survives :
    {P W : Type 0} (d : DlqProcessor P W) (ts : List (Turn Arm W)) (w : W)
    → IsReturning d
    → Survives d.shutdown_rx (run d ts w).0 (run d ts w).1
unfolding run
reaper_run-Survives d ts w c =
    run_loop-post (round d) (Survives d.shutdown_rx) (λ v. tt) (round-Survives d c) ts w

-- Drains and quarantines counted apart, by views of the world.
pub record IsDrainCounted {P W : Type 0} (d : DlqProcessor P W) (drains : W → ℕ) : Type 0 where
  pub returning : IsReturning d
  pub drain_counts :
      (w : W) → drains (d.heap.drain_exceeded d.config.dlq_threshold w).1 ≡ suc (drains w)
  pub quarantine_keeps :
      (es : List DlqEntry) (w : W) → drains (d.storage.quarantine_events es w).1 ≡ drains w
  pub drain_silent :
      (w : W)
      → signalled d.shutdown_rx w ≡ false
      → signalled d.shutdown_rx (d.heap.drain_exceeded d.config.dlq_threshold w).1 ≡ false
  pub quarantine_silent :
      (es : List DlqEntry) (w : W)
      → signalled d.shutdown_rx w ≡ false
      → signalled d.shutdown_rx (d.storage.quarantine_events es w).1 ≡ false

-- A view that every quarantine keeps is, behind a drain, what the drain made it.
quarantine-keeps :
    {P W V : Type 0} (view : W → V) (d : DlqProcessor P W)
    → ((es : List DlqEntry) (w : W) → view (d.storage.quarantine_events es w).1 ≡ view w)
    → IsReturning d
    → (r : Outcome (List DlqEntry) × W) → view (quarantine d r).1 ≡ view r.1
unfolding quarantine
quarantine-keeps view d k c (ok [], w) = refl
quarantine-keeps view d k c (ok (e ∷ es), w) =
    rw (swallow-go_on (d.storage.quarantine_events (e ∷ es) w) (c.quarantines (e ∷ es) w)).1
      (k (e ∷ es) w)
quarantine-keeps view d k c (err e, w) = refl
quarantine-keeps view d k c (panicked s, w) = refl

quarantine-silent :
    {P W : Type 0} (d : DlqProcessor P W) (drains : W → ℕ)
    → IsDrainCounted d drains
    → (r : Outcome (List DlqEntry) × W) → signalled d.shutdown_rx r.1 ≡ false
    → signalled d.shutdown_rx (quarantine d r).1 ≡ false
unfolding quarantine
quarantine-silent d drains c (ok [], w) h = h
quarantine-silent d drains c (ok (e ∷ es), w) h =
    rw
      (swallow-go_on (d.storage.quarantine_events (e ∷ es) w)
        (c.returning.quarantines (e ∷ es) w)).1
      (c.quarantine_silent (e ∷ es) w h)
quarantine-silent d drains c (err e, w) h = h
quarantine-silent d drains c (panicked s, w) h = h

reap-IsWork :
    {P W : Type 0} (d : DlqProcessor P W) (drains : W → ℕ)
    → IsDrainCounted d drains
    → IsWork d.shutdown_rx drains (round d tick)
unfolding round reap
reap-IsWork d drains c = record {
  goes_on = reap-go_on d c.returning;
  counts = λ w. quarantine-keeps drains d c.quarantine_keeps c.returning _ ∙ c.drain_counts w;
  silent = λ w h. quarantine-silent d drains c _ (c.drain_silent w h);
}

-- Up to the first shutdown that it observes the dead-letter loop has drained the heap exactly once
-- for each tick, and then it returns, whatever the rest of the schedule holds. Before that turn no
-- task signals a shutdown, no other task drains, and neither call panics.
pub reaper_run-ticks :
    {P W : Type 0} (d : DlqProcessor P W) (drains : W → ℕ) (quiet : List (Turn Arm W))
    (last : Turn Arm W) (after : List (Turn Arm W)) (w : W)
    → IsDrainCounted d drains
    → Quiet d.shutdown_rx drains quiet
    → last.arm ≡ changed
    → ((v : W) → signalled d.shutdown_rx (last.others v) ≡ true)
    → ((v : W) → drains (last.others v) ≡ drains v)
    → signalled d.shutdown_rx w ≡ false
    → let done = run d (quiet ++ last ∷ after) w in
      (done.0 ≡ stop) × (drains done.1 ≡ ticks quiet + drains w)
unfolding run
reaper_run-ticks d drains quiet last after w c =
    run_loop-ticks d.shutdown_rx drains (round d) (reap-IsWork d drains c)
      (unfold round in λ v. refl) quiet last after w

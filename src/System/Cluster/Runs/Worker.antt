-- ===== src/System/Cluster/Runs/Worker.antt =====
-- `OutboxManager::run` of manager.rs on PostgreSQL, as calls of a deployed worker.
use oxide_outbox.Prelude.{ℕ, zero, suc, String, ◌≡◌, inl, inr, List, All, arith, Bool-cases}
use oxide_outbox.Exec.{Outcome, ok, err, panicked}
use oxide_outbox.Runtime.{Shutdown}
use oxide_outbox.Loop.{Flow, Turn, on_changed}
use oxide_outbox.Processor.{process_pending_events}
use oxide_outbox.Processor.Steps.{Phase, ready, iterate}
use oxide_outbox.Processor.Alone.{process_pending_events-Ends}
use oxide_outbox.Manager
use oxide_outbox.Manager.{OutboxManager, after_batch, on_signal, drain}
use oxide_outbox.Postgres.Sql.{Db}
use oxide_outbox.Postgres.Listener.{wait_for_notification}
use oxide_outbox.Postgres.Schema.Invariant.{wait_for_notification-listener}
use oxide_outbox.System.{heaped, measured, worker}
use oxide_outbox.System.Cluster.{
  Site, Cluster, set_phase, site_processor, site_advance, worked, restarted, works, restarts,
  elsewhere,
}
use oxide_outbox.System.Cluster.Runs.{
  world, Leads, Moves, Leads-Moves, stay, by_step, runs-Leads, on_changed-Moves, resume-Leads,
}

set_phase-same : {P : Type 0} (f : ℕ → Phase P) (i : ℕ) (c : Phase P) → set_phase f i c i ≡ c
set_phase-same f i c = ground arith

-- The manager that is deployed.
abbrev pub site_worker :
    {P X : Type 0} → Site P X → Shutdown (Db P × X) → OutboxManager P (Db P × X)
site_worker s rx = worker s.config s.transport s.heap rx

module _ {P X : Type 0} (s : Site P X) (delivered : X → ℕ → Type 0) where
  -- So many calls of one worker.
  iterate-Leads :
      (i k : ℕ) (c : Cluster P X)
      → Leads s delivered c
          (iterate (heaped s.heap) (measured s.metrics) (site_processor s) k (c.phase i, world c)).1
  iterate-Leads i zero c = stay s delivered c
  iterate-Leads i (suc k) c =
      let done = site_advance s (c.phase i) (world c) in
      by_step s delivered c (worked s i c) _ (works i c)
        (rw (set_phase-same c.phase i done.0) at (iterate-Leads i k (worked s i c)))

  batch-Moves :
      (i : ℕ)
      → Moves s delivered (λ w.
        (process_pending_events (heaped s.heap) (measured s.metrics) (site_processor s) w).1)
  batch-Moves i c =
      let (k, ends) =
        process_pending_events-Ends (heaped s.heap) (measured s.metrics) (site_processor s)
          (world c) in
      by_step s delivered c (restarted i c) _ (restarts i c)
        (rw ends at rw (set_phase-same c.phase i ready) at (iterate-Leads i k (restarted i c)))

  module _ (i : ℕ) (rx : Shutdown (Db P × X)) where
    after_batch-Leads :
        (c : Cluster P X) (r : Outcome ℕ × (Db P × X)) (again : Db P × X → Flow × (Db P × X))
        → Leads s delivered c r.1
        → Moves s delivered (λ w. (again w).1)
        → Leads s delivered c (after_batch r again).1
    after_batch-Leads c (ok zero, w) again h move = h
    after_batch-Leads c (ok (suc n), w) again h move =
        Leads-Moves s delivered (λ v. (again v).1) c w move h
    after_batch-Leads c (err x, w) again h move = h
    after_batch-Leads c (panicked m, w) again h move = h

    drain-Moves :
        (fuel : ℕ)
        → Moves s delivered (λ w. (drain (measured s.metrics) (site_worker s rx) fuel w).1)
    unfolding drain
    drain-Moves zero c = stay s delivered c
    drain-Moves (suc fuel) c = elim (Bool-cases (rx.value (world c))) [
      | inl t ↦ rw t (stay s delivered c)
      | inr n ↦ rw n (
          after_batch-Leads c
            (process_pending_events (heaped s.heap) (measured s.metrics) (site_processor s)
              (world c))
            (drain (measured s.metrics) (site_worker s rx) fuel) (batch-Moves i c)
            (drain-Moves fuel))
    ]

    on_signal-Leads :
        (c : Cluster P X) (r : Outcome (Unit {0}) × (Db P × X))
        (inner : Db P × X → Flow × (Db P × X))
        → Leads s delivered c r.1
        → Moves s delivered (λ w. (inner w).1)
        → Leads s delivered c (on_signal r inner).1
    unfolding on_signal
    on_signal-Leads c (ok u, w) inner h move = Leads-Moves s delivered (λ v. (inner v).1) c w move h
    on_signal-Leads c (err x, w) inner h move = h
    on_signal-Leads c (panicked m, w) inner h move = h

    wait-Moves :
        (channel : String)
        → Moves s delivered (λ w. ((site_worker s rx).storage.wait_for_notification channel w).1)
    wait-Moves channel c =
        let (rows, dead, _, _) = wait_for_notification-listener channel c.db in
        by_step s delivered c _ _
          (elsewhere c (wait_for_notification channel c.db).1 c.rest rows dead (λ k d. d))
          (stay s delivered _)

    round-Moves :
        (fuel : ℕ) (arm : Manager.Arm)
        → Moves s delivered
            (λ w. (Manager.round (measured s.metrics) (site_worker s rx) fuel arm w).1)
    unfolding Manager.round
    round-Moves fuel Manager.notified c =
        on_signal-Leads c
          ((site_worker s rx).storage.wait_for_notification "outbox_event" (world c))
          (drain (measured s.metrics) (site_worker s rx) fuel) (wait-Moves "outbox_event" c)
          (drain-Moves fuel)
    round-Moves fuel Manager.tick c = drain-Moves fuel c
    round-Moves fuel Manager.changed c =
        resume-Leads s delivered c (on_changed rx (world c))
          (drain (measured s.metrics) (site_worker s rx) fuel) (on_changed-Moves s delivered rx c)
          (drain-Moves fuel)

    -- Where the other tasks of the schedule lead by calls of the deployed tasks, so does the loop.
    pub worker_run-Moves :
        (fuel : ℕ) (ts : List (Turn Manager.Arm (Db P × X)))
        → All (λ t. Moves s delivered t.others) ts
        → Moves s delivered (λ w. (Manager.run (measured s.metrics) (site_worker s rx) fuel ts w).1)
    unfolding Manager.run
    worker_run-Moves fuel ts others c =
        runs-Leads s delivered (Manager.round (measured s.metrics) (site_worker s rx) fuel)
          (round-Moves fuel) ts others c

-- ===== src/System/Kept.antt =====
-- The rule for what the worker loop of manager.rs keeps on PostgreSQL: what its calls keep, every run
-- keeps.
use oxide_outbox.Prelude.{
  ℕ, zero, suc, String, inl, inr, List, [], ◌∷◌, All, is_empty, Bool-cases, arith,
}
use oxide_outbox.Exec.{Outcome, ok, err, panicked, Exec, ◌>>=◌}
use oxide_outbox.Exec.Laws.{continue_post}
use oxide_outbox.Object.EventId.{EventId}
use oxide_outbox.Runtime.{Shutdown}
use oxide_outbox.Model.{Event, sent}
use oxide_outbox.Loop.{Flow, Turn, on_changed}
use oxide_outbox.Loop.Stopping.{run_loop-invariant, resume_post}
use oxide_outbox.Processor.{mark, publish_all, event_publish, process_pending_events}
use oxide_outbox.Manager
use oxide_outbox.Manager.{after_batch, on_signal, drain}
use oxide_outbox.Postgres.Sql.{Db}
use oxide_outbox.System.{heaped, measured}
use oxide_outbox.System.Cluster.{Site, site_processor}
use oxide_outbox.System.Cluster.Runs.Worker.{site_worker}

-- What each call of a batch, and the wait, keep.
pub record IsKept {P X : Type 0} (s : Site P X) (I : Db P × X → Type 0) : Type 0 where
  pub by_fetch :
      (n : ℕ) (w : Db P × X) → I w → I ((site_processor s).storage.fetch_next_to_process n w).1
  pub by_loop :
      (es : List (Event P)) (w : Db P × X)
      → I w
      → I (publish_all (heaped s.heap) (measured s.metrics) (site_processor s) es [] w).1
  pub by_update :
      (ids : List EventId) (w : Db P × X)
      → I w
      → I ((site_processor s).storage.update_status ids sent w).1
  pub by_wait :
      (channel : String) (w : Db P × X)
      → I w
      → I ((site_processor s).storage.wait_for_notification channel w).1

module _ {P X : Type 0} (s : Site P X) (I : Db P × X → Type 0) (c : IsKept s I) where
  abbrev Kept : {A : Type 0} → (Db P × X → A × (Db P × X)) → Type 0
  Kept m = (w : Db P × X) → I w → I (m w).1

  bind-Kept :
      {A B : Type 0} (m : Exec (Db P × X) A) (g : A → Exec (Db P × X) B)
      → Kept m
      → ((a : A) → Kept (g a))
      → Kept (m >>= g)
  bind-Kept m g km kg w i =
      continue_post (λ _ v. I v) (m w).0 g (m w).1 (λ a _. kg a (m w).1 (km w i)) (λ _ _. km w i)
        (λ _ _. km w i)

  mark-Kept : (ids : List EventId) → Kept (mark (site_processor s) ids)
  unfolding mark
  mark-Kept [] = λ w i. i
  mark-Kept (id ∷ ids) = c.by_update (id ∷ ids)

  batch-Kept : Kept (process_pending_events (heaped s.heap) (measured s.metrics) (site_processor s))
  unfolding process_pending_events event_publish
  batch-Kept =
      bind-Kept ((site_processor s).storage.fetch_next_to_process s.config.batch_size) _
        (c.by_fetch s.config.batch_size)
        λ es. elim (Bool-cases (is_empty es)) [
          | inl q ↦ rw q (λ w i. i)
          | inr q ↦ rw q (
              bind-Kept (event_publish (heaped s.heap) (measured s.metrics) (site_processor s) es) _
                (bind-Kept
                  (publish_all (heaped s.heap) (measured s.metrics) (site_processor s) es []) _
                  (c.by_loop es) (λ ids. mark-Kept ids))
                (λ _ w i. i))
        ]

  module _ (rx : Shutdown (Db P × X)) where
    after_batch-Kept :
        (r : Outcome ℕ × (Db P × X)) (again : Db P × X → Flow × (Db P × X))
        → I r.1
        → Kept again
        → I (after_batch r again).1
    after_batch-Kept (ok zero, v) again i k = i
    after_batch-Kept (ok (suc n), v) again i k = k v i
    after_batch-Kept (err x, v) again i k = i
    after_batch-Kept (panicked m, v) again i k = i

    drain-Kept : (fuel : ℕ) → Kept (drain (measured s.metrics) (site_worker s rx) fuel)
    unfolding drain
    drain-Kept zero w i = i
    drain-Kept (suc fuel) w i = elim (Bool-cases (rx.value w)) [
      | inl q ↦ rw q i
      | inr q ↦ rw q (
          after_batch-Kept
            (process_pending_events (heaped s.heap) (measured s.metrics) (site_processor s) w)
            (drain (measured s.metrics) (site_worker s rx) fuel) (batch-Kept w i) (drain-Kept fuel))
    ]

    on_signal-Kept :
        (r : Outcome (Unit {0}) × (Db P × X)) (inner : Db P × X → Flow × (Db P × X))
        → I r.1
        → Kept inner
        → I (on_signal r inner).1
    unfolding on_signal
    on_signal-Kept (ok u, v) inner i k = k v i
    on_signal-Kept (err x, v) inner i k = i
    on_signal-Kept (panicked m, v) inner i k = i

    pub on_changed-Kept : Kept (on_changed rx)
    on_changed-Kept w i = ground arith

    round-Kept :
        (fuel : ℕ) (arm : Manager.Arm)
        → Kept (Manager.round (measured s.metrics) (site_worker s rx) fuel arm)
    unfolding Manager.round
    round-Kept fuel Manager.notified w i =
        on_signal-Kept ((site_worker s rx).storage.wait_for_notification "outbox_event" w)
          (drain (measured s.metrics) (site_worker s rx) fuel) (c.by_wait "outbox_event" w i)
          (drain-Kept fuel)
    round-Kept fuel Manager.tick w i = drain-Kept fuel w i
    round-Kept fuel Manager.changed w i =
        resume_post (λ _ v. I v) (on_changed rx w)
          (drain (measured s.metrics) (site_worker s rx) fuel) (on_changed-Kept w i)
          (λ _. drain-Kept fuel (on_changed rx w).1 (on_changed-Kept w i))

    -- What the calls keep, and the other tasks of the schedule, a run keeps, however it ends.
    pub run-Kept :
        (fuel : ℕ) (ts : List (Turn Manager.Arm (Db P × X)))
        → All (λ t. (w : Db P × X) → I w → I (t.others w)) ts
        → Kept (Manager.run (measured s.metrics) (site_worker s rx) fuel ts)
    unfolding Manager.run
    run-Kept fuel ts others w =
        run_loop-invariant (Manager.round (measured s.metrics) (site_worker s rx) fuel) I
          (λ arm v. round-Kept fuel arm v) ts others w

-- ===== src/System/Delivery/Kept.antt =====
-- What the broker has taken stays taken, through whatever the worker loop of manager.rs does.
use oxide_outbox.Prelude.{ℕ, List, [], ◌∷◌, All}
use oxide_outbox.Exec.{Outcome, ok, err, panicked, Exec, ◌>>=◌}
use oxide_outbox.Exec.Laws.{continue_post}
use oxide_outbox.Object.EventId.{EventId}
use oxide_outbox.Object.EventType
use oxide_outbox.Runtime.{Shutdown}
use oxide_outbox.Model.{Event}
use oxide_outbox.Loop.{Turn}
use oxide_outbox.Processor.{note_success, note_failure, settle, publish_one, publish_all}
use oxide_outbox.Processor.Delivered.{IsTopic}
use oxide_outbox.Manager
use oxide_outbox.Manager.{after_batch, on_signal, drain}
use oxide_outbox.Postgres.Sql.{Db}
use oxide_outbox.System.{heaped, measured}
use oxide_outbox.System.Cluster.{Site, site_processor}
use oxide_outbox.System.Cluster.Runs.Worker.{site_worker}
use oxide_outbox.System.Kept.{IsKept, run-Kept}
use oxide_outbox.System.Delivery.{lifted-IsTopic}

module _ {P X : Type 0} (s : Site P X) (took : X → Event P → Type 0)
    (c : IsTopic took s.transport s.heap s.metrics) (f : Event P) where
  -- An action that undoes no delivery of `f`.
  abbrev Took : {A : Type 0} → (Db P × X → A × (Db P × X)) → Type 0
  Took m = (w : Db P × X) → took w.1 f → took (m w).1.1 f

  bind-Took :
      {A B : Type 0} (m : Exec (Db P × X) A) (g : A → Exec (Db P × X) B)
      → Took m
      → ((a : A) → Took (g a))
      → Took (m >>= g)
  bind-Took m g km kg w t =
      continue_post (λ _ (v : Db P × X). took v.1 f) (m w).0 g (m w).1
        (λ a _. kg a (m w).1 (km w t)) (λ _ _. km w t) (λ _ _. km w t)

  settle-Took :
      (e : Event P) (ids : List EventId) (r : Outcome (Unit {0}))
      → Took (settle (heaped s.heap) (measured s.metrics) e ids r)
  unfolding settle
  settle-Took e ids (ok u) =
      let lifted = lifted-IsTopic s took c in
      bind-Took (note_success (heaped s.heap) e.id) _ (λ w. lifted.by_success e.id f w)
        (λ _ w. lifted.by_success_metrics (EventType.to_string e.event_type) f w)
  settle-Took e ids (err x) =
      let lifted = lifted-IsTopic s took c in
      bind-Took (note_failure (heaped s.heap) e.id) _ (λ w. lifted.by_failure e.id f w)
        (λ _ w. lifted.by_error_metrics (EventType.to_string e.event_type) f w)
  settle-Took e ids (panicked m) = λ w t. t

  publish_all-Took :
      (es : List (Event P)) (ids : List EventId)
      → Took (publish_all (heaped s.heap) (measured s.metrics) (site_processor s) es ids)
  unfolding publish_all publish_one
  publish_all-Took [] ids = λ w t. t
  publish_all-Took (e ∷ es) ids =
      bind-Took (publish_one (heaped s.heap) (measured s.metrics) (site_processor s) e ids) _
        (λ w t.
          settle-Took e ids (s.transport.publish e w.1).0 (w.0, (s.transport.publish e w.1).1)
            (c.by_publish e f w.1 t))
        (λ ids'. publish_all-Took es ids')

  kept : IsKept s (λ w. took w.1 f)
  kept = record {
    by_fetch = λ n w t. t;
    by_loop = λ es. publish_all-Took es [];
    by_update = λ ids w t. t;
    by_wait = λ channel w t. t;
  }

  -- A run takes nothing back, where the other tasks do not.
  pub run-Took :
      (rx : Shutdown (Db P × X)) (fuel : ℕ) (ts : List (Turn Manager.Arm (Db P × X)))
      → All (λ t. (w : Db P × X) → took w.1 f → took (t.others w).1 f) ts
      → Took (Manager.run (measured s.metrics) (site_worker s rx) fuel ts)
  run-Took rx = run-Kept s (λ w. took w.1 f) kept rx

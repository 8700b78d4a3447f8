-- ===== src/System/Cluster/Runs/Survives.antt =====
-- An accepted event through a run of the worker loop of manager.rs on PostgreSQL.
use oxide_outbox.Prelude.{ℕ, String, ◌≡◌, subst, Option, List, ◌∷◌, All}
use oxide_outbox.Exec.{ok, Exec}
use oxide_outbox.Runtime.{Shutdown}
use oxide_outbox.Model.{Event}
use oxide_outbox.Loop.{Turn}
use oxide_outbox.Manager
use oxide_outbox.Service.AddEvent.{Fresh}
use oxide_outbox.Postgres.Sql.{Db, uuid_of}
use oxide_outbox.Postgres.Custody.{Held}
use oxide_outbox.System.{measured}
use oxide_outbox.System.Cluster.{Site, Cluster, Grows, IsLedger, left_by, site_add_event}
use oxide_outbox.System.Cluster.Custody.{IsHonest, add_event-survives}
use oxide_outbox.System.Cluster.Runs.{world, Moves}
use oxide_outbox.System.Cluster.Runs.Worker.{site_worker, worker_run-Moves}

module _ {P X : Type 0} (s : Site P X) (delivered : X → ℕ → Type 0) (l : IsLedger s delivered)
    (rx : Shutdown (Db P × X)) where
  -- The row that an `add_event` which returned `Ok` has put in front of the table, a pending event with
  -- the type and the payload that were given, outlives every run of the worker loop that follows,
  -- however it ends: it stands in the outbox table or among the dead letters, or the broker has taken
  -- it. The other tasks of the schedule make calls of the
  -- deployed tasks, and before the call every row marked `Sent`, and all that a worker had collected,
  -- had been taken. A `publish` that returns `Ok` was taken by the broker, and no call undoes that.
  pub worker_run-survives :
      (event_type : String) (payload : P) (given : Option String)
      (get_event : Exec X (Option (Event P)))
      → Grows delivered get_event
      → (c : Cluster P X) → IsHonest delivered c
      → let done = site_add_event s event_type payload given get_event (world c) in
        done.0 ≡ ok tt
        → (fuel : ℕ) (ts : List (Turn Manager.Arm (Db P × X)))
        → All (λ t. Moves s delivered t.others) ts
        → let left = (Manager.run (measured s.metrics) (site_worker s rx) fuel ts done.1).1 in
          (e : Event P) × Fresh event_type payload e
          × (done.1.0.rows ≡ e ∷ c.db.rows)
          × Held (delivered left.1) (uuid_of e) left.0
  worker_run-survives event_type payload given get_event grows c honest h fuel ts others =
      let (e, fresh, rows, safe) =
        add_event-survives s delivered l event_type payload given get_event grows c honest h in
      let after = left_by (site_add_event s event_type payload given get_event) c in
      let (later, r, q) = worker_run-Moves s delivered 0 rx fuel ts others after in
      (
        e,
        fresh,
        rows,
        subst (λ (w : Db P × X). Held (delivered w.1) (uuid_of e) w.0) q (safe later r),
      )

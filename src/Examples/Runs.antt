-- ===== src/Examples/Runs.antt =====
-- The worker loop over the site of `Examples.Deployed`, beside a collector and another producer.
use oxide_outbox.Prelude.{ℕ, ◌≡◌, refl, false, none, List, [], ◌∷◌, All}
use oxide_outbox.Exec.{pure}
use oxide_outbox.Runtime.{Shutdown}
use oxide_outbox.Model.{Event, new_event}
use oxide_outbox.Config.{invoke}
use oxide_outbox.Loop.{Turn}
use oxide_outbox.Manager
use oxide_outbox.Service.{add_event, reserve}
use oxide_outbox.Service.AddEvent.{Fresh}
use oxide_outbox.Postgres.Sql.{Db, uuid_of}
use oxide_outbox.Postgres.Writer.{insert_event}
use oxide_outbox.Postgres.Custody.{Held}
use oxide_outbox.Postgres.{delete_garbage}
use oxide_outbox.System.{on_first}
use oxide_outbox.System.Cluster.{produces, collects}
use oxide_outbox.System.Cluster.Runs.{Moves, world, stay, by_step}
use oxide_outbox.System.Cluster.Runs.Worker.{site_worker}
use oxide_outbox.System.Cluster.Runs.Survives.{worker_run-survives}
use oxide_outbox.Examples.Tables.{db}
use oxide_outbox.Examples.Deployed.{World, site, Delivered, ledger, start, start-IsHonest, pay}

abbrev rx : Shutdown (Db ℕ × World)
rx = record { value = λ w. false; closed = λ w. false }

abbrev collector : Db ℕ × World → Db ℕ × World
collector w = (on_first (delete_garbage site.config) w).1

abbrev producer : Db ℕ × World → Db ℕ × World
producer w = (pay w).1

collector-Moves : Moves site Delivered collector
collector-Moves c = by_step site Delivered c _ _ (collects c) (stay site Delivered _)

producer-Moves : Moves site Delivered producer
producer-Moves c =
    by_step site Delivered c _ _ (produces "paid" 3 none (pure none) c (λ w k d. d))
      (stay site Delivered _)

abbrev schedule : List (Turn Manager.Arm (Db ℕ × World))
schedule =
    record { others = collector; arm = Manager.tick }
    ∷ record { others = producer; arm = Manager.notified }
    ∷ []

schedule-Moves : All (λ t. Moves site Delivered t.others) schedule
schedule-Moves = (collector-Moves, (producer-Moves, tt))

worker_run-survives_example :
    let left = (Manager.run none (site_worker site rx) 9 schedule (pay (world start)).1).1 in
    (e : Event ℕ) × Fresh "paid" 3 e
    × ((pay (world start)).1.0.rows ≡ e ∷ db.rows)
    × Held (Delivered left.1) (uuid_of e) left.0
unfolding add_event invoke reserve insert_event new_event
worker_run-survives_example =
    worker_run-survives site Delivered ledger rx "paid" 3 none (pure none) (λ w k d. d) start
      start-IsHonest refl 9 schedule schedule-Moves

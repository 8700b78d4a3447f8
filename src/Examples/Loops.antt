-- ===== src/Examples/Loops.antt =====
-- The worker and the collector over the site of `Examples.Deployed`, each beside other tasks.
use mathlib.Core.List.Memᴰ.{head, tail}
use oxide_outbox.Prelude.{ℕ, ◌+◌, refl, false, none, List, [], ◌∷◌}
use oxide_outbox.Runtime.{Shutdown}
use oxide_outbox.Model.{pending}
use oxide_outbox.Loop.{Turn}
use oxide_outbox.Manager
use oxide_outbox.Gc
use oxide_outbox.Postgres.{postgres_outbox}
use oxide_outbox.Postgres.Sql.{Db}
use oxide_outbox.Postgres.Fetch.{Keyed}
use oxide_outbox.Postgres.Garbage.{Standing}
use oxide_outbox.System.{stored}
use oxide_outbox.System.Forward.{Onward, Forward-refl, worker_run-Onward}
use oxide_outbox.System.Spared.{gc_run-spares}
use oxide_outbox.System.Cluster.Runs.{world}
use oxide_outbox.System.Cluster.Runs.Worker.{site_worker}
use oxide_outbox.Examples.Batch.{event}
use oxide_outbox.Examples.Deployed.{World, site, start}

abbrev rx : Shutdown (Db ℕ × World)
rx = record { value = λ w. false; closed = λ w. false }

-- Ten minutes pass.
abbrev wait : Db ℕ × World → Db ℕ × World
wait w = (record w.0 { now = w.0.now + 600000000 }, w.1)

wait-Onward : (v : Db ℕ × World) → Keyed v.0.rows → Onward v.0 (wait v).0
wait-Onward v keyed = (Forward-refl v.0.rows, refl)

abbrev alone : List (Turn Manager.Arm (Db ℕ × World))
alone = record { others = wait; arm = Manager.tick } ∷ []

-- A run of another worker.
abbrev other : Db ℕ × World → Db ℕ × World
other w = (Manager.run none (site_worker site rx) 9 alone w).1

other-Onward : (v : Db ℕ × World) → Keyed v.0.rows → Onward v.0 (other v).0
other-Onward v keyed = worker_run-Onward site rx 9 alone v keyed (wait-Onward, tt)

abbrev turns : List (Turn Manager.Arm (Db ℕ × World))
turns =
    record { others = other; arm = Manager.notified }
    ∷ record { others = wait; arm = Manager.tick }
    ∷ []

worker_run-Onward_example :
    Onward start.db (Manager.run none (site_worker site rx) 9 turns (world start)).1.0
worker_run-Onward_example =
    worker_run-Onward site rx 9 turns (world start) (refl, (refl, (refl, (refl, (refl, tt)))))
      (other-Onward, (wait-Onward, tt))

abbrev ticks : List (Turn Gc.Arm (Db ℕ × World))
ticks =
    record { others = wait; arm = Gc.tick }
    ∷ record { others = wait; arm = Gc.changed }
    ∷ record { others = wait; arm = Gc.tick }
    ∷ []

gc_run-spares_example :
    Standing
      (event 2 pending 7)
      (Gc.run (Gc.new (stored (postgres_outbox site.config))) rx ticks (world start)).1.0
gc_run-spares_example =
    gc_run-spares rx (event 2 pending 7) site.config (λ q. cc) ticks (world start)
      ((λ v s. s), ((λ v s. s), ((λ v s. s), tt)))
      ((refl, (refl, (refl, (refl, (refl, tt))))), tail (head refl))

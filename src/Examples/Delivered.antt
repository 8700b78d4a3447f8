-- ===== src/Examples/Delivered.antt =====
-- The worker loop over the site of `Examples.Accepted`.
use oxide_outbox.Prelude.{
  All, ℕ, ◌≤◌, ◌<◌, ◌≡◌, refl, none, some, List, [], ◌∷◌, Memᴰ, length, arith,
}
use oxide_outbox.Exec.{ok, pure}
use oxide_outbox.Model.{Event, new_event, processing}
use oxide_outbox.Config.{default_config, provided, invoke}
use oxide_outbox.Service.{add_event, reserve}
use oxide_outbox.Service.AddEvent.{Fresh, TokenOf}
use oxide_outbox.Postgres.Sql.{Db}
use oxide_outbox.Postgres.{candidates, fetch_next_to_process}
use oxide_outbox.Postgres.Writer.{insert_event}
use oxide_outbox.System.Delivery.Rows.{IsAwaited, Cleared}
use oxide_outbox.System.Delivery.Backlog.{drain-delivers}
use oxide_outbox.Manager
use oxide_outbox.System.Delivery.Running.{IsCalm, IsKeeping, Published, run-publishes}
use oxide_outbox.Processor.Delivered.{IsWelcome}
use oxide_outbox.System.Delivery.{site_batch}
use oxide_outbox.System.Delivery.Table.{Batched, site_batch-Batched}
use oxide_outbox.System.Delivery.Recovery.{drain-recovers}
use oxide_outbox.Manager.{drain}
use oxide_outbox.Loop.{go_on, Turn}
use oxide_outbox.Postgres.Fetch.Selection.{Claimable}
use oxide_outbox.System.Cluster.Runs.Worker.{site_worker}
use oxide_outbox.System.Cluster.{Site}
use oxide_outbox.Examples.Tables.{config}
use oxide_outbox.Examples.Batch.{event}
use oxide_outbox.Examples.Accepted.{
  World, broker, site, Took, topic, smooth, paid-IsWelcome, before, made, rx,
}

-- The site with batches of one event.
abbrev slow : Site ℕ World
slow = record site { config = record default_config { batch_size = 1 } }

few : length (candidates before.0) < 9
unfolding candidates
few = omega arith

drain-delivers_example :
    let done = drain none (site_worker slow rx) 9 before in
    (done.0 ≡ go_on)
    × ((e : Event ℕ)
        → Memᴰ e before.0.rows
        → Claimable before.0 e
        → IsAwaited broker e
        → Cleared Took e done.1)
drain-delivers_example =
    drain-delivers slow rx Took topic smooth 5 9 before refl (omega arith) (λ v. refl) refl
      (refl, (refl, (refl, (refl, (refl, tt))))) few

-- A worker that was killed behind its fetch, and the database when its locks have run out.
abbrev abandoned : List (Event ℕ)
abandoned =
    event 1 processing 1000300000000
    ∷ event 2 processing 1000300000000
    ∷ event 4 processing 1000300000000
    ∷ []

abandoned_ok : (fetch_next_to_process config 10 before.0).0 ≡ ok abandoned
unfolding fetch_next_to_process
abandoned_ok = refl

abbrev expired : Db ℕ × World
expired = (record ((fetch_next_to_process config 10 before.0).1) { now = 1000300000001 }, [])

few_abandoned : length (candidates expired.0) < 9
unfolding candidates fetch_next_to_process
few_abandoned = omega arith

drain-recovers_example :
    let done = drain none (site_worker slow rx) 9 expired in
    (done.0 ≡ go_on)
    × ((e : Event ℕ) → Memᴰ e abandoned → IsAwaited broker e → Cleared Took e done.1)
unfolding fetch_next_to_process
drain-recovers_example =
    drain-recovers slow rx Took topic smooth config 10 before.0 abandoned abandoned_ok
      (refl, (refl, (refl, (refl, (refl, tt))))) 5 9 expired refl (omega arith) (λ k. refl) refl
      (omega arith) (λ v. refl) refl few_abandoned

-- The loop in which another worker's batch comes behind the first turn.
abbrev minute_later : Db ℕ × World → Db ℕ × World
minute_later w = (record w.0 { now = 1000060000000 }, w.1)

abbrev turns : List (Turn Manager.Arm (Db ℕ × World))
turns = record { others = minute_later; arm = Manager.notified } ∷ []

turns_keep : All (λ u. IsKeeping Took u.others) turns
turns_keep = ((λ f v i. i), tt)

later-IsCalm : IsCalm 9 (minute_later made).0
unfolding add_event invoke reserve insert_event new_event candidates
later-IsCalm = record {
  faultless = refl;
  free = λ k. refl;
  keyed = (refl, (refl, (refl, (refl, (refl, (refl, tt))))));
  enough = omega arith;
}

run-publishes_example :
    (e : Event ℕ) × Fresh "paid" 3 e
    × TokenOf {P = ℕ} provided (some "t") e.idempotency_token
    × Published Took e
        (Manager.run none
          (site_worker site rx)
          9
          (record { others = minute_later; arm = Manager.tick } ∷ turns)
          made).1
unfolding add_event invoke reserve insert_event new_event
run-publishes_example =
    run-publishes site rx Took topic smooth 5 9 "paid" 3 (some "t") (pure none) before
      (record { others = minute_later; arm = Manager.tick }) turns refl refl later-IsCalm refl
      (omega arith) (λ v. refl) refl turns_keep paid-IsWelcome

site_batch-Batched_example :
    let done = site_batch site before in
    (n : ℕ) × (done.0 ≡ ok n)
    × (n ≤ 100)
    × Batched
        (100 < length (candidates before.0))
        (Claimable before.0)
        (IsWelcome broker)
        (Took done.1.1)
        1000300000000
        n
        before.0.rows
        done.1.0.rows
site_batch-Batched_example =
    site_batch-Batched site rx Took topic smooth before refl
      (refl, (refl, (refl, (refl, (refl, tt)))))

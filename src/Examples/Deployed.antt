-- ===== src/Examples/Deployed.antt =====
-- Two workers and a producer over the database of `Examples.Tables`. The world beside the database
-- is the list of the events that the broker has taken, and a counter for new ids; the broker refuses
-- every event with payload 1.
use mathlib.Core.List.Memᴰ.{head, tail}
use oxide_outbox.Prelude.{
  ℕ, suc, ◌≡◌, refl, true, none, List, [], ◌∷◌, contains, ◌==◌, if◌then◌else◌, arith, inl,
}
use oxide_outbox.Exec.{Exec, ok, err, broker_error, pure}
use oxide_outbox.Runtime.{Runtime}
use oxide_outbox.Traits.{Transport}
use oxide_outbox.Config.{default_config, invoke}
use oxide_outbox.Processor.Steps.{ready}
use oxide_outbox.Model.{Event, new_entry, new_event}
use oxide_outbox.Object.EventId.{load}
use oxide_outbox.Postgres.Sql.{Db, uuid_of}
use oxide_outbox.Postgres.Writer.{insert_event}
use oxide_outbox.Postgres.Custody.{Honest}
use oxide_outbox.Service.{add_event, reserve}
use oxide_outbox.Service.AddEvent.{Fresh}
use oxide_outbox.System.{on_first}
use oxide_outbox.Postgres.{delete_garbage, quarantine_events}
use oxide_outbox.System.Cluster.{
  Site, Cluster, IsLedger, works, restarts, produces, collects, quarantines, Reach, here, next,
  site_add_event, worked, restarted, left_by,
}
use oxide_outbox.System.Cluster.Custody.{IsHonest, IsSafe, Reach-IsSafe, add_event-survives}
use oxide_outbox.Examples.Tables.{db}

abbrev pub World : Type 0
World = List ℕ × ℕ

abbrev pub broker : Transport ℕ World
broker = record {
  publish = λ e w.
      if e.payload.inner == 1
      then (err (broker_error "refused"), w)
      else (ok tt, (uuid_of e ∷ w.0, w.1));
}

abbrev pub runtime : Runtime World
runtime = record {
  new_v4 = λ w. (w.1, (w.0, suc w.1));
  now_v7 = λ w. (w.1, (w.0, suc w.1));
  uuid_text = λ n. "id";
  now_utc = λ w. (1000000000000, w);
}

abbrev pub site : Site ℕ World
site = record {
  transport = broker;
  heap = none;
  metrics = none;
  runtime = runtime;
  provider = none;
  to_value = λ payload. none;
  config = default_config;
}

abbrev pub Delivered : World → ℕ → Type 0
Delivered w k = contains w.0 k ≡ true

pub ledger : IsLedger site Delivered
ledger = record {
  accepts = λ e w q. ground arith;
  by_publish = λ e w k d. ground arith;
  by_success = λ id w k d. d;
  by_failure = λ id w k d. d;
  by_success_metrics = λ ty w k d. d;
  by_error_metrics = λ ty w k d. d;
  by_v4 = λ w k d. d;
  by_v7 = λ w k d. d;
  by_clock = λ w k d. d;
  by_reserve = λ p q t w k d. cc;
}

abbrev pub start : Cluster ℕ World
start = record { db = db; rest = (5 ∷ [], 70); phase = λ i. ready }

pub start-IsHonest : IsHonest Delivered start
start-IsHonest = record { rows = rows; collected = λ i. tt }
  where
    rows : Honest (Delivered (5 ∷ [], 70)) db.rows
    rows e (head q) t = cc
    rows e (tail (head q)) t = cc
    rows e (tail (tail (head q))) t = cc
    rows e (tail (tail (tail (head q)))) t = cc
    rows e (tail (tail (tail (tail (head q))))) t = rw q refl
    rows e (tail (tail (tail (tail (tail i))))) t = elim i [ ]

-- Worker 0 fetches and publishes; worker 1 fetches; worker 0 notes the refusal, publishes the
-- second event and is killed; a producer, the collector and the dead-letter task act.
abbrev c1 : Cluster ℕ World
c1 = worked site 0 (worked site 0 start)

abbrev c2 : Cluster ℕ World
c2 = restarted 0 (worked site 0 (worked site 0 (worked site 1 c1)))

abbrev pub pay : Exec (Db ℕ × World) (Unit {0})
pay = site_add_event site "paid" 3 none (pure none)

abbrev c3 : Cluster ℕ World
c3 = left_by pay c2

abbrev c4 : Cluster ℕ World
c4 =
    left_by (on_first (quarantine_events (new_entry (load 1) 4 none ∷ [])))
      (left_by (on_first (delete_garbage site.config)) c3)

start-c4 : Reach site Delivered start c4
start-c4 =
    next
      (next
        (next
          (next
            (next (next (next (next (next here (works 0 _)) (works 0 _)) (works 1 _)) (works 0 _))
              (works 0 _))
            (restarts 0 _))
          (produces "paid" 3 none (pure none) _ (λ w k d. d)))
        (collects _))
      (quarantines _ _)

Reach-IsSafe_example : IsHonest Delivered c4 × IsSafe Delivered 2 c4
Reach-IsSafe_example =
    Reach-IsSafe site Delivered ledger 2 start c4 start-IsHonest (inl refl) start-c4

add_event-survives_example :
    (e : Event ℕ) × Fresh "paid" 3 e
    × ((left_by pay start).db.rows ≡ e ∷ db.rows)
    × ((later : Cluster ℕ World)
        → Reach site Delivered (left_by pay start) later
        → IsSafe Delivered (uuid_of e) later)
unfolding add_event invoke reserve insert_event new_event
add_event-survives_example =
    add_event-survives site Delivered ledger "paid" 3 none (pure none) (λ w k d. d) start
      start-IsHonest refl

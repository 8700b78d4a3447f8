-- ===== src/Examples/Accepted.antt =====
-- A producer and a batch over the rows of `Examples.Tables`, with a broker that keeps what it takes
-- and refuses every event that is not of the type "paid".
use mathlib.Core.List.Memᴰ.{head, tail}
use text.Mathlib.Text.{◌==◌}
use oxide_outbox.Prelude.{
  ℕ, true, ◌≤◌, ◌≡◌, ◌≢◌, refl, inl, inr, Bool, Bool-cases, false, none, some, List, [], ◌∷◌, Memᴰ,
  length, arith, if◌then◌else◌,
}
use oxide_outbox.Exec.{ok, err, broker_error, pure}
use oxide_outbox.Object.EventType
use oxide_outbox.Runtime.{Runtime, Shutdown}
use oxide_outbox.Model.{Event, new_event}
use oxide_outbox.Config.{default_config, provided, invoke}
use oxide_outbox.Traits.{Transport}
use oxide_outbox.Processor.Delivered.{IsTopic, IsSmooth, IsWelcome}
use oxide_outbox.Service.{add_event, reserve}
use oxide_outbox.Service.AddEvent.{Fresh, TokenOf}
use oxide_outbox.Postgres.Sql.{Db}
use oxide_outbox.Postgres.{candidates}
use oxide_outbox.Object.IdempotencyToken
use oxide_outbox.Postgres.Writer.{insert_event, token_taken}
use oxide_outbox.System.Dedup.{add_event-token}
use oxide_outbox.System.Cluster.{Site, site_add_event}
use oxide_outbox.System.Delivery.{site_batch}
use oxide_outbox.System.Delivery.Accepted.{delivered_row, published_row, add_event-delivers}
use oxide_outbox.Examples.Tables.{db}

abbrev pub World : Type 0
World = List (Event ℕ)

abbrev pub broker : Transport ℕ World
broker = record {
  publish = λ e w.
      if EventType.as_str e.event_type == "paid"
      then (ok tt, e ∷ w)
      else (err (broker_error "refused"), w);
}

abbrev runtime : Runtime World
runtime = record {
  new_v4 = λ w. (70, w);
  now_v7 = λ w. (71, w);
  uuid_text = λ n. "id";
  now_utc = λ w. (1000000000000, w);
}

abbrev pub site : Site ℕ World
site = record {
  transport = broker;
  heap = none;
  metrics = none;
  runtime = runtime;
  provider = none;
  to_value = λ payload. none;
  config = record default_config { idempotency_strategy = provided };
}

abbrev pub Took : World → Event ℕ → Type 0
Took w e = Memᴰ e w

is_paid : Event ℕ → Bool
is_paid e = EventType.as_str e.event_type == "paid"

takes : (e : Event ℕ) (w : World) → (broker.publish e w).0 ≡ ok tt → Took (broker.publish e w).1 e
unfolding is_paid
takes e w q = elim (Bool-cases (is_paid e)) [
  | inl t ↦ rw t (head refl)
  | inr n ↦ absurd (ground (arith, rw n at q))
]

keeps : (e f : Event ℕ) (w : World) → Took w f → Took (broker.publish e w).1 f
unfolding is_paid
keeps e f w i = elim (Bool-cases (is_paid e)) [ inl t ↦ rw t (tail i) | inr n ↦ rw n i ]

pub topic : IsTopic Took broker none none
topic = record {
  accepts = takes;
  by_publish = keeps;
  by_success = λ id f w i. i;
  by_failure = λ id f w i. i;
  by_success_metrics = λ ty f w i. i;
  by_error_metrics = λ ty f w i. i;
}

pub smooth : IsSmooth broker none
smooth = record {
  publishes = λ e w m q. ground arith;
  successes = λ id w. refl;
  failures = λ id w. refl;
}

pub paid-IsWelcome : (e : Event ℕ) → e.event_type ≡ EventType.new "paid" → IsWelcome broker e
paid-IsWelcome e q w = rw q refl

abbrev pub before : Db ℕ × World
before = (record db { faults = []; row_locked = λ k. false }, [])

abbrev pub made : Db ℕ × World
made = (site_add_event site "paid" 3 (some "t") (pure none) before).1

-- Five seconds later.
abbrev later : Db ℕ × World
later = (record made.0 { now = 1000005000000 }, made.1)

four : length (candidates later.0) ≤ 100
unfolding add_event invoke reserve insert_event new_event candidates
four = omega arith

abbrev pub rx : Shutdown (Db ℕ × World)
rx = record { value = λ w. false; closed = λ w. false }

add_event-delivers_example :
    (n : ℕ) × ((site_batch site later).0 ≡ ok n)
    × (e : Event ℕ) × Fresh "paid" 3 e
    × TokenOf {P = ℕ} provided (some "t") e.idempotency_token
    × Took (site_batch site later).1.1 (published_row site later.0 e)
    × Memᴰ (delivered_row site later.0 e) (site_batch site later).1.0.rows
unfolding add_event invoke reserve insert_event new_event
add_event-delivers_example =
    add_event-delivers site rx Took topic smooth "paid" 3 (some "t") (pure none) before later refl
      refl refl (λ k. refl) four paid-IsWelcome

add_event-token_example :
    let done = site_add_event site "void" 4 (some "t") (pure none) made in
    (done.0 ≡ ok tt → token_taken (some (IdempotencyToken.new "t")) done.1.0.rows ≡ true)
    × (token_taken (some (IdempotencyToken.new "t")) made.0.rows ≡ true
        → (done.0 ≢ ok tt) × (done.1.0.rows ≡ made.0.rows))
add_event-token_example = add_event-token site refl "t" "void" 4 (pure none) made

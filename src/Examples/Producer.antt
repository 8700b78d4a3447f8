-- ===== src/Examples/Producer.antt =====
-- A world for service.rs: a counter, the writer's rows and the reserved tokens.
use text.Mathlib.Text.{◌==◌}
use text.Mathlib.TextPositions.{eq_refl}
use oxide_outbox.Prelude.{
  inl, ℕ, suc, String, Bool, true, false, ◌||◌, ◌≡◌, refl, subst, Option, none, some, List, [], ◌∷◌,
  if◌then◌else◌, arith,
}
use oxide_outbox.Exec.{raise, database_error, Exec, ok, err, duplicate_event, pure}
use oxide_outbox.Object.IdempotencyToken.{IdempotencyToken, as_str}
use oxide_outbox.Object.IdempotencyToken
use oxide_outbox.Runtime.{Runtime}
use oxide_outbox.Model.{Event}
use oxide_outbox.Config.{IdempotencyStrategy, provided, uuid, OutboxConfig, default_config, invoke}
use oxide_outbox.Traits.{OutboxWriter, IdempotencyStorageProvider}
use oxide_outbox.Service.{OutboxService, with_idempotency, reserve, add_event}
use oxide_outbox.Service.AddEvent.{IsWriter, IsApart, Recorded}
use oxide_outbox.Service.Contract.{add_event-Recorded}
use oxide_outbox.Service.Dedup.{IsReserving, IsGuarding, add_event-burns, add_event-DuplicateEvent}
use oxide_outbox.Service.Context.{add_event-context}

record World : Type 0 where
  next : ℕ
  rows : List (Event ℕ)
  tokens : List String

abbrev rt : Runtime World
rt = record {
  new_v4 = λ w. (w.next, record w { next = suc w.next });
  now_v7 = λ w. (w.next, record w { next = suc w.next });
  uuid_text = λ n. "018f";
  now_utc = λ w. (w.next, w);
}

abbrev writer : OutboxWriter ℕ World
writer = record { insert_event = λ e w. (ok tt, record w { rows = e ∷ w.rows }) }

abbrev has : List String → String → Bool
has [] t = false
has (s ∷ ss) t = (s == t) || has ss t

abbrev provider : IdempotencyStorageProvider World
provider = record {
  try_reserve = λ t w.
      if has w.tokens (as_str t)
      then (ok false, w)
      else (ok true, record w { tokens = as_str t ∷ w.tokens });
}

abbrev config : IdempotencyStrategy ℕ → OutboxConfig ℕ
config s = record default_config { idempotency_strategy = s }

abbrev service : IdempotencyStrategy ℕ → OutboxService ℕ World
service s = with_idempotency writer (config s) provider

abbrev no_event : Exec World (Option (Event ℕ))
no_event = pure none

abbrev start : World
start = record { next = 1; rows = []; tokens = [] }

writer-IsWriter : IsWriter (λ (w : World). w.rows) writer
writer-IsWriter = record { adds = λ e w h. refl; refuses = λ e w x h. cc; aborts = λ e w x h. cc }

KeepsRows : Option (IdempotencyStorageProvider World) → Type 0
KeepsRows none = Unit
KeepsRows (some p) = (t : IdempotencyToken) (w : World) → (p.try_reserve t w).1.rows ≡ w.rows

provider-KeepsRows : KeepsRows (some provider)
unfolding KeepsRows
provider-KeepsRows t w = ground arith

attached-KeepsRows :
    (p : IdempotencyStorageProvider World) → some provider ≡ some p → KeepsRows (some p)
attached-KeepsRows p q = subst KeepsRows q provider-KeepsRows

apart : IsApart (λ (w : World). w.rows) rt no_event (some provider)
unfolding KeepsRows
apart = record {
  at_v4 = λ w. refl;
  at_v7 = λ w. refl;
  at_clock = λ w. refl;
  at_event = λ w. refl;
  at_reserve = λ p q. attached-KeepsRows p q;
}

abbrev Taken : IdempotencyToken → World → Type 0
Taken t w = has w.tokens (as_str t) ≡ true

provider-IsReserving : IsReserving Taken rt writer provider
provider-IsReserving = record {
  taking = record {
    claims = λ t w h. ground (arith, eq_refl (as_str t));
    at_v4 = λ t w h. h;
    at_clock = λ t w h. h;
    at_insert = λ t e w h. h;
  };
  rejects = λ t w h. ground arith;
}

add_event-Recorded_example :
    let done = add_event rt (service provided) "paid" 7 (some "t1") no_event start in
    Recorded provided "paid" 7 (some "t1") [] done.0 (done.1.rows)
add_event-Recorded_example =
    add_event-Recorded rt (service provided) (λ w. w.rows) "paid" 7 (some "t1") no_event start
      writer-IsWriter apart

abbrev after_first : World
after_first = (add_event rt (service provided) "paid" 7 (some "t1") no_event start).1

add_event-DuplicateEvent_example :
    add_event rt (service provided) "void" 8 (some "t1") no_event after_first
    ≡ (err duplicate_event, (provider.try_reserve (IdempotencyToken.new "t1") after_first).1)
unfolding add_event invoke reserve
add_event-DuplicateEvent_example =
    add_event-DuplicateEvent rt (service provided) provider refl refl Taken provider-IsReserving
      "t1" (λ w. w) (λ v h. h) "paid" "void" 7 8 no_event no_event start refl

add_event-context_example :
    add_event rt (service uuid) "paid" 7 none no_event
    ≡ add_event rt (service uuid) "paid" 7 none (pure none)
add_event-context_example =
    add_event-context rt (service uuid) "paid" 7 none no_event (pure none) (λ x. x)

provider-IsGuarding : IsGuarding Taken rt writer provider
provider-IsGuarding = record {
  taking = provider-IsReserving.taking;
  guards = λ t w h. inl (provider-IsReserving.rejects t w h);
}

-- A writer whose connection is gone.
abbrev broken_writer : OutboxWriter ℕ World
broken_writer = record { insert_event = λ e. raise (database_error "gone") }

abbrev broken : OutboxService ℕ World
broken = with_idempotency broken_writer (config provided) provider

broken-IsReserving : IsReserving Taken rt broken_writer provider
broken-IsReserving = record {
  taking = record {
    claims = provider-IsReserving.taking.claims;
    at_v4 = λ t w h. h;
    at_clock = λ t w h. h;
    at_insert = λ t e w h. h;
  };
  rejects = provider-IsReserving.rejects;
}

abbrev after_failure : World
after_failure = (add_event rt broken "paid" 7 (some "t1") no_event start).1

add_event-burns_example :
    (add_event rt broken "paid" 7 (some "t1") no_event after_failure).0 ≡ err duplicate_event
unfolding add_event invoke reserve
add_event-burns_example =
    add_event-burns rt broken provider refl refl Taken broken-IsReserving "t1" (λ w. w) (λ v h. h)
      "paid" 7 no_event start refl

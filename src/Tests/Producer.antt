-- ===== src/Tests/Producer.antt =====
-- The tests of outbox-core/src/service.rs.
use Prim.Native.String.{◌++◌}
use text.Mathlib.Text.{◌==◌}
use oxide_outbox.Prelude.{
  ℕ, suc, String, Bool, true, false, not, ◌&&◌, ◌≡◌, refl, Option, none, some,
}
use oxide_outbox.Prelude.Int.{pos}
use oxide_outbox.Exec.{
  Outcome, ok, panicked, Exec, pure, raise, infrastructure_error, database_error,
}
use oxide_outbox.Object.IdempotencyToken.{IdempotencyToken, as_str}
use oxide_outbox.Object.EventType
use oxide_outbox.Object.Payload
use oxide_outbox.Object.Payload.{as_value}
use oxide_outbox.Runtime.{Runtime}
use oxide_outbox.Model.{Event, new_event}
use oxide_outbox.Config.{
  IdempotencyStrategy, provided, custom, uuid, disabled, OutboxConfig, invoke,
}
use oxide_outbox.Service
use oxide_outbox.Service.{OutboxService, add_event, reserve}
use oxide_outbox.Tests.Mock.{
  Mock, mocked, is_met, exactly, never, checked, is_ok, is_duplicate, is_infrastructure,
  is_database,
}

pub record TestPayload : Type 0 where
  pub kind : String

abbrev pub payload : TestPayload
payload = record { kind = "k" }

abbrev pub config_with : IdempotencyStrategy TestPayload → OutboxConfig TestPayload
config_with strategy = record {
  batch_size = 100;
  retention_days = pos 7;
  gc_interval_secs = 3600;
  poll_interval_secs = 10;
  lock_timeout_mins = pos 5;
  idempotency_strategy = strategy;
  dlq_threshold = 10;
  dlq_interval_secs = 1;
}

-- The calls of the two doubles, and the token that a closure keeps.
pub record Doubles : Type 0 where
  pub next : ℕ
  pub inserts : ℕ
  pub reserves : ℕ
  pub captured : Option String

abbrev start : Doubles
start = record { next = 1; inserts = 0; reserves = 0; captured = none }

abbrev rt : Runtime Doubles
rt = record {
  new_v4 = λ w. (w.next, record w { next = suc w.next });
  now_v7 = λ w. (w.next, record w { next = suc w.next });
  uuid_text = λ n. "018f";
  now_utc = λ w. (w.next, w);
}

abbrev Writer : Type 0
Writer = Mock (Event TestPayload) (Unit {0}) Doubles

abbrev Provider : Type 0
Provider = Mock IdempotencyToken Bool Doubles

abbrev bare : Writer → IdempotencyStrategy TestPayload → OutboxService TestPayload Doubles
bare writer strategy =
    Service.new
      (record {
        insert_event = mocked writer (λ w. w.inserts) (λ w. record w { inserts = suc w.inserts });
      })
      (config_with strategy)

abbrev guarded :
    Writer → Provider → IdempotencyStrategy TestPayload → OutboxService TestPayload Doubles
guarded writer idem strategy =
    Service.with_idempotency (bare writer strategy).writer (config_with strategy) (record {
      try_reserve = mocked idem (λ w. w.reserves) (λ w. record w { reserves = suc w.reserves });
    })

abbrev no_event : Exec Doubles (Option (Event TestPayload))
no_event = pure none

-- The assertion on the result, and those of the doubles.
abbrev verdict :
    Writer → Provider → (Outcome (Unit {0}) → Bool) → Outcome (Unit {0}) × Doubles → Bool
verdict writer idem expected (r, w) =
    expected r && is_met writer w.inserts && is_met idem w.reserves

abbrev has_token : (String → Bool) → Event TestPayload → Bool
has_token p e = told e.idempotency_token
  where
    told : Option IdempotencyToken → Bool
    told none = false
    told (some t) = p (as_str t)

abbrev pub none_strategy_without_idempotency_storage_inserts_event_without_token : Bool
none_strategy_without_idempotency_storage_inserts_event_without_token =
    let writer =
      checked (λ e. not (has_token (λ t. true) e) && (EventType.as_str e.event_type == "t"))
        (exactly 1 (pure tt)) in
    verdict writer never is_ok (add_event rt (bare writer disabled) "t" payload none no_event start)

abbrev pub uuid_strategy_without_idempotency_storage_inserts_event_with_generated_token : Bool
uuid_strategy_without_idempotency_storage_inserts_event_with_generated_token =
    let writer = checked (has_token (λ t. not (t == ""))) (exactly 1 (pure tt)) in
    verdict writer never is_ok (add_event rt (bare writer uuid) "t" payload none no_event start)

abbrev same_token : Event TestPayload → Option String → Bool
same_token e none = false
same_token e (some expected) = has_token (λ t. t == expected) e

abbrev pub uuid_strategy_with_storage_reserves_same_token_as_inserted : Bool
uuid_strategy_with_storage_reserves_same_token_as_inserted =
    let idem : Provider = record {
      withf = λ t w. true;
      times = some 1;
      returning = λ i t w. (ok true, record w { captured = some (as_str t) });
    } in
    let writer : Writer = record (exactly 1 (pure tt)) { withf = λ e w. same_token e w.captured } in
    verdict writer idem is_ok
      (add_event rt (guarded writer idem uuid) "t" payload none no_event start)

abbrev pub provided_some_passes_user_token_to_reserve_and_insert : Bool
provided_some_passes_user_token_to_reserve_and_insert =
    let idem = checked (λ t. as_str t == "user-tok") (exactly 1 (pure true)) in
    let writer = checked (has_token (λ t. t == "user-tok")) (exactly 1 (pure tt)) in
    verdict writer idem is_ok
      (add_event rt (guarded writer idem provided) "t" payload (some "user-tok") no_event start)

abbrev pub provided_none_skips_reserve_and_inserts_without_token : Bool
provided_none_skips_reserve_and_inserts_without_token =
    let writer = checked (λ e. not (has_token (λ t. true) e)) (exactly 1 (pure tt)) in
    verdict writer never is_ok
      (add_event rt (guarded writer never provided) "t" payload none no_event start)

abbrev derive : Event TestPayload → String
derive event = "derived:" ++ (as_value event.payload).kind

abbrev pub custom_strategy_uses_extractor_closure_for_token : Bool
custom_strategy_uses_extractor_closure_for_token =
    let idem = checked (λ t. as_str t == "derived:k") (exactly 1 (pure true)) in
    let writer = checked (has_token (λ t. t == "derived:k")) (exactly 1 (pure tt)) in
    let get_event : Exec Doubles (Option (Event TestPayload)) = λ w.
      let (e, w') = new_event rt (EventType.new "t") (Payload.new payload) none w in
      (ok (some e), w') in
    verdict writer idem is_ok
      (add_event rt (guarded writer idem (custom derive)) "t" payload none get_event start)

abbrev pub custom_strategy_panics_when_get_event_returns_none : Bool
custom_strategy_panics_when_get_event_returns_none =
    verdict never never panics
      (add_event rt (guarded never never (custom (λ e. "x"))) "t" payload none no_event start)
  where
    panics : Outcome (Unit {0}) → Bool
    panics (panicked s) = s == "Strategy is Custom, but no Event context provided"
    panics _ = false

abbrev pub duplicate_when_reserve_returns_false_and_insert_is_not_called : Bool
duplicate_when_reserve_returns_false_and_insert_is_not_called =
    let idem = exactly 1 (pure false) in
    verdict never idem is_duplicate
      (add_event rt (guarded never idem provided) "t" payload (some "dup") no_event start)

abbrev pub reserve_error_propagates_and_insert_is_not_called : Bool
reserve_error_propagates_and_insert_is_not_called =
    let idem = exactly 1 (raise (infrastructure_error "redis down")) in
    verdict never idem is_infrastructure
      (add_event rt (guarded never idem uuid) "t" payload none no_event start)

abbrev pub insert_error_propagates_after_successful_reserve : Bool
insert_error_propagates_after_successful_reserve =
    let idem = exactly 1 (pure true) in
    let writer = exactly 1 (raise (database_error "pk conflict")) in
    verdict writer idem is_database
      (add_event rt (guarded writer idem uuid) "t" payload none no_event start)

all_pass :
    (none_strategy_without_idempotency_storage_inserts_event_without_token
      && uuid_strategy_without_idempotency_storage_inserts_event_with_generated_token
      && uuid_strategy_with_storage_reserves_same_token_as_inserted
      && provided_some_passes_user_token_to_reserve_and_insert
      && provided_none_skips_reserve_and_inserts_without_token
      && custom_strategy_uses_extractor_closure_for_token
      && custom_strategy_panics_when_get_event_returns_none
      && duplicate_when_reserve_returns_false_and_insert_is_not_called
      && reserve_error_propagates_and_insert_is_not_called
      && insert_error_propagates_after_successful_reserve)
    ≡ true
unfolding add_event invoke reserve new_event
all_pass = refl

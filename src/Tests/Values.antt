-- ===== src/Tests/Values.antt =====
-- The tests of outbox-core/src/idempotency/strategy.rs, model.rs and error.rs, without those of the
-- generators of the `uuid` crate.
use Prim.Native.String.{◌++◌}
use text.Mathlib.Text.{◌==◌}
use oxide_outbox.Prelude.{
  ℕ, suc, String, Bool, true, false, not, ◌&&◌, ◌≡◌, refl, Option, none, some, leb,
}
use oxide_outbox.Exec.{
  infrastructure_error, duplicate_event, database_error, broker_error, config_error, display,
  Outcome, ok, panicked, Exec, pure, panic,
}
use oxide_outbox.Object.IdempotencyToken
use oxide_outbox.Object.EventType
use oxide_outbox.Object.Payload
use oxide_outbox.Object.Payload.{Payload, as_value}
use oxide_outbox.Runtime.{Runtime}
use oxide_outbox.Model.{Event, pending, processing, sent, is_status, unix_epoch, new_event}
use oxide_outbox.Config.{IdempotencyStrategy, provided, custom, uuid, disabled, invoke}

pub record TestPayload : Type 0 where
  pub value : String

-- A clock and a generator that count, and whether a closure was called.
pub record World : Type 0 where
  pub next : ℕ
  pub called : Bool

abbrev start : World
start = record { next = 5; called = false }

abbrev rt : Runtime World
rt = record {
  new_v4 = λ w. (w.next, record w { next = suc w.next });
  now_v7 = λ w. (w.next, record w { next = suc w.next });
  uuid_text = λ n. "018f";
  now_utc = λ w. (w.next, record w { next = suc w.next });
}

abbrev made : String → String → Option String → Event TestPayload
made ty value token =
    (new_event rt (EventType.new ty) (Payload.new (record { value = value }))
      (map IdempotencyToken.new token) start).0
  where
    map : {A B : Type 0} → (A → B) → Option A → Option B
    map f none = none
    map f (some a) = some (f a)

abbrev Closure : Type 0
Closure = Exec World (Option (Event TestPayload))

abbrev nothing : Closure
nothing = pure none

abbrev must_not_be_called : Closure
must_not_be_called = panic "get_event must not be called"

abbrev test_event : Closure
test_event w = (ok (some (made "t" "p" none)), record w { called = true })

-- `assert_eq!` on the token that `invoke` returns.
abbrev returns : Option String → Outcome (Option String) → Bool
returns none (ok none) = true
returns (some t) (ok (some s)) = s == t
returns _ _ = false

abbrev invoked :
    IdempotencyStrategy TestPayload → Option String → Closure → Outcome (Option String) × World
invoked s token get_event = invoke rt s token get_event start

abbrev pub provided_returns_passed_token : Bool
provided_returns_passed_token = returns (some "abc") (invoked provided (some "abc") nothing).0

abbrev pub provided_returns_none_when_no_token_passed : Bool
provided_returns_none_when_no_token_passed = returns none (invoked provided none nothing).0

abbrev pub provided_does_not_invoke_get_event : Bool
provided_does_not_invoke_get_event =
    returns (some "x") (invoked provided (some "x") must_not_be_called).0

abbrev is_other : String → Outcome (Option String) → Bool
is_other t (ok (some s)) = not (s == t)
is_other t _ = false

abbrev pub uuid_ignores_provided_token_and_does_not_invoke_get_event : Bool
uuid_ignores_provided_token_and_does_not_invoke_get_event =
    is_other "user-tok" (invoked uuid (some "user-tok") must_not_be_called).0

abbrev pub custom_invokes_closure_and_derives_token_from_event : Bool
custom_invokes_closure_and_derives_token_from_event =
    let (r, w) = invoked (custom (λ e. "d:" ++ (as_value e.payload).value)) none test_event in
    w.called && returns (some "d:p") r

abbrev pub custom_ignores_provided_token : Bool
custom_ignores_provided_token =
    returns (some "from-closure")
      (invoked (custom (λ e. "from-closure")) (some "user") test_event).0

abbrev panics : String → Outcome (Option String) → Bool
panics message (panicked s) = s == message
panics message _ = false

abbrev pub custom_panics_when_get_event_returns_none : Bool
custom_panics_when_get_event_returns_none =
    panics "Strategy is Custom, but no Event context provided"
      (invoked (custom (λ e. "x")) none nothing).0

abbrev pub none_returns_none_and_ignores_inputs : Bool
none_returns_none_and_ignores_inputs = returns none (invoked disabled (some "x") nothing).0

abbrev pub none_does_not_invoke_get_event : Bool
none_does_not_invoke_get_event = returns none (invoked disabled none must_not_be_called).0

abbrev pub event_new_sets_status_to_pending : Bool
event_new_sets_status_to_pending = is_status (made "t" "p" none).status pending

abbrev pub event_new_sets_locked_until_to_unix_epoch : Bool
event_new_sets_locked_until_to_unix_epoch =
    let e = made "t" "p" none in leb e.locked_until unix_epoch && leb unix_epoch e.locked_until

-- The clock is read before the call and behind it.
abbrev pub event_new_sets_created_at_within_wall_clock_window : Bool
event_new_sets_created_at_within_wall_clock_window =
    let (before, w1) = rt.now_utc start in
    let (e, w2) = new_event rt (EventType.new "t") (Payload.new (record { value = "p" })) none w1 in
    let (after, w3) = rt.now_utc w2 in inside e before after
  where
    inside : Event TestPayload → ℕ → ℕ → Bool
    inside e before after = leb before e.created_at && leb e.created_at after

abbrev pub event_new_preserves_event_type_and_payload : Bool
event_new_preserves_event_type_and_payload =
    let e = made "order.created" "hello" none in
    (EventType.as_str e.event_type == "order.created") && ((as_value e.payload).value == "hello")

abbrev token_text : Event TestPayload → Outcome (Option String)
token_text e = ok (read e.idempotency_token)
  where
    read : Option IdempotencyToken.IdempotencyToken → Option String
    read none = none
    read (some t) = some (IdempotencyToken.as_str t)

abbrev pub event_new_preserves_idempotency_token_some : Bool
event_new_preserves_idempotency_token_some =
    returns (some "abc") (token_text (made "t" "p" (some "abc")))

abbrev pub event_new_preserves_idempotency_token_none : Bool
event_new_preserves_idempotency_token_none = returns none (token_text (made "t" "p" none))

abbrev pub event_status_partial_eq : Bool
event_status_partial_eq =
    is_status pending pending
    && is_status processing processing
    && is_status sent sent
    && not (is_status pending processing)
    && not (is_status processing sent)
    && not (is_status pending sent)

abbrev pub display_infrastructure_error_includes_inner_message : Bool
display_infrastructure_error_includes_inner_message =
    display (infrastructure_error "redis down") == "Infrastructure error: redis down"

abbrev pub display_duplicate_event_is_static_string : Bool
display_duplicate_event_is_static_string = display duplicate_event == "Duplicate error"

abbrev pub display_database_error_includes_inner_message : Bool
display_database_error_includes_inner_message =
    display (database_error "pk conflict") == "Database error: pk conflict"

abbrev pub display_broker_error_includes_inner_message : Bool
display_broker_error_includes_inner_message =
    display (broker_error "kafka timeout") == "Broker error: kafka timeout"

abbrev pub display_config_error_includes_inner_message : Bool
display_config_error_includes_inner_message =
    display (config_error "missing field") == "Config error: missing field"

strategies_pass :
    (provided_returns_passed_token && provided_returns_none_when_no_token_passed
      && provided_does_not_invoke_get_event
      && uuid_ignores_provided_token_and_does_not_invoke_get_event
      && custom_invokes_closure_and_derives_token_from_event && custom_ignores_provided_token
      && custom_panics_when_get_event_returns_none && none_returns_none_and_ignores_inputs
      && none_does_not_invoke_get_event)
    ≡ true
unfolding invoke new_event
strategies_pass = refl

events_pass :
    (event_new_sets_status_to_pending && event_new_sets_locked_until_to_unix_epoch
      && event_new_sets_created_at_within_wall_clock_window
      && event_new_preserves_event_type_and_payload && event_new_preserves_idempotency_token_some
      && event_new_preserves_idempotency_token_none && event_status_partial_eq)
    ≡ true
unfolding new_event unix_epoch
events_pass = refl

displays_pass :
    (display_infrastructure_error_includes_inner_message && display_duplicate_event_is_static_string
      && display_database_error_includes_inner_message
      && display_broker_error_includes_inner_message && display_config_error_includes_inner_message)
    ≡ true
unfolding display
displays_pass = refl

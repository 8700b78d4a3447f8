-- ===== src/Tests/Objects.antt =====
-- The tests of outbox-core/src/object.rs, config.rs and idempotency/storage.rs, without those of
-- clones, of serde and of the generators of the `uuid` crate. A test that draws a uuid runs at one.
use oxide_outbox.Prelude.{ℕ, String, Bool, true, false, ◌&&◌, ◌≡◌, refl, ◌==◌}
use oxide_outbox.Prelude.Int.{ℤ, pos, negsuc}
use oxide_outbox.Exec.{Outcome, ok, err, panicked}
use oxide_outbox.Object.EventId
use oxide_outbox.Object.EventId.{as_uuid}
use oxide_outbox.Object.IdempotencyToken
use oxide_outbox.Object.EventType
use oxide_outbox.Object.Payload
use oxide_outbox.Object.Payload.{as_value}
use oxide_outbox.Config.{IdempotencyStrategy, disabled, OutboxConfig, default_config}
use oxide_outbox.Traits.{IdempotencyStorageProvider, no_idempotency}
use oxide_outbox.Tests.Manager.{is_text}

pub data TestPayload : Type 0 where
  test_payload : TestPayload

abbrev pub event_id_load_preserves_inner_uuid : Bool
event_id_load_preserves_inner_uuid = as_uuid (EventId.load 7) == 7

abbrev pub event_id_equality_reflects_inner_uuid : Bool
event_id_equality_reflects_inner_uuid = as_uuid (EventId.load 7) == as_uuid (EventId.load 7)

abbrev preserved : String → Bool
preserved raw = is_text (IdempotencyToken.as_str (IdempotencyToken.new raw)) raw

abbrev pub idempotency_token_new_preserves_string : Bool
idempotency_token_new_preserves_string =
    preserved "abc" && preserved "" && preserved "with spaces and 🦀"

abbrev pub event_type_new_preserves_str : Bool
event_type_new_preserves_str =
    is_text (EventType.as_str (EventType.new "order.created")) "order.created"

abbrev pub event_type_load_preserves_str : Bool
event_type_load_preserves_str =
    is_text (EventType.as_str (EventType.load "order.created")) "order.created"

abbrev pub event_type_new_and_load_produce_equal_string_views : Bool
event_type_new_and_load_produce_equal_string_views =
    is_text (EventType.as_str (EventType.new "x")) (EventType.as_str (EventType.load "x"))

abbrev pub event_type_display_matches_as_str : Bool
event_type_display_matches_as_str =
    let et = EventType.new "payment.settled" in
    is_text (EventType.to_string et) (EventType.as_str et)

abbrev pub payload_new_preserves_value : Bool
payload_new_preserves_value = as_value (Payload.new 42) == 42

abbrev pub payload_from_ref_clones_without_consuming_source : Bool
payload_from_ref_clones_without_consuming_source =
    let source : String = "keep-me" in
    is_text (as_value (Payload.from_ref source)) source && is_text source "keep-me"

abbrev pub default_cfg : OutboxConfig TestPayload
default_cfg = default_config

abbrev is_int : ℤ → ℕ → Bool
is_int (pos m) n = m == n
is_int (negsuc m) n = false

abbrev pub default_batch_size_is_100 : Bool
default_batch_size_is_100 = default_cfg.batch_size == 100

abbrev pub default_retention_days_is_7 : Bool
default_retention_days_is_7 = is_int default_cfg.retention_days 7

abbrev pub default_gc_interval_secs_is_3600 : Bool
default_gc_interval_secs_is_3600 = default_cfg.gc_interval_secs == 3600

abbrev pub default_poll_interval_secs_is_10 : Bool
default_poll_interval_secs_is_10 = default_cfg.poll_interval_secs == 10

abbrev pub default_lock_timeout_mins_is_5 : Bool
default_lock_timeout_mins_is_5 = is_int default_cfg.lock_timeout_mins 5

abbrev is_none : IdempotencyStrategy TestPayload → Bool
is_none disabled = true
is_none _ = false

abbrev pub default_idempotency_strategy_is_none : Bool
default_idempotency_strategy_is_none = is_none default_cfg.idempotency_strategy

abbrev World : Type 0
World = Unit {0}

abbrev provider : IdempotencyStorageProvider World
provider = no_idempotency

abbrev is_true : Outcome Bool → Bool
is_true (ok b) = b
is_true (err e) = false
is_true (panicked s) = false

abbrev reserves : String → Bool
reserves raw = is_true (provider.try_reserve (IdempotencyToken.new raw) tt).0

abbrev pub no_idempotency_returns_ok_true_for_any_token : Bool
no_idempotency_returns_ok_true_for_any_token =
    reserves "any-token" && reserves "" && reserves "token-🦀"

abbrev pub no_idempotency_returns_ok_true_across_repeated_calls_with_same_token : Bool
no_idempotency_returns_ok_true_across_repeated_calls_with_same_token =
    let (first, w) = provider.try_reserve (IdempotencyToken.new "same") tt in
    is_true first && is_true (provider.try_reserve (IdempotencyToken.new "same") w).0

objects_pass :
    (event_id_load_preserves_inner_uuid && event_id_equality_reflects_inner_uuid
      && idempotency_token_new_preserves_string && event_type_new_preserves_str
      && event_type_load_preserves_str && event_type_new_and_load_produce_equal_string_views
      && event_type_display_matches_as_str && payload_new_preserves_value
      && payload_from_ref_clones_without_consuming_source)
    ≡ true
objects_pass = refl

configs_pass :
    (default_batch_size_is_100 && default_retention_days_is_7 && default_gc_interval_secs_is_3600
      && default_poll_interval_secs_is_10 && default_lock_timeout_mins_is_5
      && default_idempotency_strategy_is_none)
    ≡ true
configs_pass = refl

providers_pass :
    (no_idempotency_returns_ok_true_for_any_token
      && no_idempotency_returns_ok_true_across_repeated_calls_with_same_token)
    ≡ true
providers_pass = refl

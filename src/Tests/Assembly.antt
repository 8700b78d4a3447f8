-- ===== src/Tests/Assembly.antt =====
-- The tests of outbox-core/src/builder.rs, with the feature `dlq` on and off.
use text.Mathlib.Text.{◌==◌}
use oxide_outbox.Prelude.{String, Bool, true, false, ◌&&◌, ◌||◌, ◌≡◌, refl, if◌then◌else◌}
use oxide_outbox.Prelude.Int.{pos}
use oxide_outbox.Exec.{Outcome, ok, err, panicked, config_error, panic}
use oxide_outbox.Runtime.{Shutdown}
use oxide_outbox.Config.{OutboxConfig, disabled}
use oxide_outbox.Config
use oxide_outbox.Traits.{OutboxStorage, Transport, DlqHeap}
use oxide_outbox.Manager.{OutboxManager}
use oxide_outbox.Builder
use oxide_outbox.Builder.{OutboxManagerBuilder, build}

pub data SomeDomainEvent : Type 0 where
  some_event : String → SomeDomainEvent

abbrev World : Type 0
World = Unit {0}

abbrev Built : Type 0
Built = Outcome (OutboxManager SomeDomainEvent World)

abbrev Unfinished : Type 0
Unfinished = OutboxManagerBuilder SomeDomainEvent World

-- Doubles without an expectation.
abbrev storage_mock : OutboxStorage SomeDomainEvent World
storage_mock = record {
  fetch_next_to_process = λ n. panic "unexpected call";
  update_status = λ ids st. panic "unexpected call";
  delete_garbage = panic "unexpected call";
  wait_for_notification = λ channel. panic "unexpected call";
  quarantine_events = λ es. panic "unexpected call";
}

abbrev transport_mock : Transport SomeDomainEvent World
transport_mock = record { publish = λ e. panic "unexpected call" }

abbrev dlq_heap_mock : DlqHeap World
dlq_heap_mock = record {
  record_failure = λ id. panic "unexpected call";
  record_success = λ id. panic "unexpected call";
  drain_exceeded = λ n. panic "unexpected call";
}

-- `watch::channel(false)`
abbrev shutdown_rx : Shutdown World
shutdown_rx = record { value = λ w. false; closed = λ w. false }

abbrev pub default_config : OutboxConfig SomeDomainEvent
default_config = record Config.default_config {
  batch_size = 100;
  retention_days = pos 7;
  gc_interval_secs = 3600;
  poll_interval_secs = 5;
  lock_timeout_mins = pos 5;
  idempotency_strategy = disabled;
}

abbrev is_ok : Built → Bool
is_ok (ok m) = true
is_ok (err e) = false
is_ok (panicked s) = false

abbrev is_config_error : Built → Bool
is_config_error (err (config_error msg)) = true
is_config_error _ = false

-- `str::contains`
abbrev starts_with : String → String → Bool
starts_with String.[] msg = true
starts_with (String.◌∷◌ c needle) String.[] = false
starts_with (String.◌∷◌ c needle) (String.◌∷◌ d msg) =
    (String.◌∷◌ c "" == String.◌∷◌ d "") && starts_with needle msg

abbrev contains_text : String → String → Bool
contains_text needle String.[] = starts_with needle ""
contains_text needle (String.◌∷◌ c msg) =
    starts_with needle (String.◌∷◌ c msg) || contains_text needle msg

abbrev pub assert_config_error_with : Built → String → Bool
assert_config_error_with (err (config_error msg)) needle = contains_text needle msg
assert_config_error_with _ needle = false

-- `#[cfg(feature = "dlq")] let b = b.dlq_heap(…)`
abbrev with_heap : Bool → Unfinished → Unfinished
with_heap dlq b = if dlq then Builder.dlq_heap dlq_heap_mock b else b

abbrev on_and_off : (Bool → Bool) → Bool
on_and_off test = test true && test false

abbrev pub test_success_build : Bool
test_success_build = on_and_off λ dlq. is_ok (
    build dlq (
      with_heap dlq (
        Builder.shutdown_rx shutdown_rx (
          Builder.config default_config
            (Builder.publisher transport_mock (Builder.storage storage_mock Builder.new))))))

abbrev pub default_builder_fails_on_build_with_config_error : Bool
default_builder_fails_on_build_with_config_error =
    on_and_off λ dlq. is_config_error (build dlq Builder.new)

abbrev same_message : Built → Built → Bool
same_message (err (config_error m1)) (err (config_error m2)) = m1 == m2
same_message _ _ = false

abbrev pub new_matches_default : Bool
new_matches_default = on_and_off λ dlq. same_message (build dlq Builder.new) (build dlq Builder.new)

abbrev pub build_fails_without_storage : Bool
build_fails_without_storage = on_and_off λ dlq.
    assert_config_error_with
      (build dlq (
        with_heap dlq (
          Builder.shutdown_rx shutdown_rx
            (Builder.config default_config (Builder.publisher transport_mock Builder.new)))))
      "Storage"

abbrev pub build_fails_without_publisher : Bool
build_fails_without_publisher = on_and_off λ dlq.
    assert_config_error_with
      (build dlq (
        with_heap dlq (
          Builder.shutdown_rx shutdown_rx
            (Builder.config default_config (Builder.storage storage_mock Builder.new)))))
      "Publisher"

abbrev pub build_fails_without_config : Bool
build_fails_without_config = on_and_off λ dlq.
    assert_config_error_with
      (build dlq (
        with_heap dlq (
          Builder.shutdown_rx shutdown_rx
            (Builder.publisher transport_mock (Builder.storage storage_mock Builder.new)))))
      "Config"

abbrev pub build_fails_without_shutdown_rx : Bool
build_fails_without_shutdown_rx = on_and_off λ dlq.
    assert_config_error_with
      (build dlq (
        with_heap dlq (
          Builder.config default_config
            (Builder.publisher transport_mock (Builder.storage storage_mock Builder.new)))))
      "Shutdown"

abbrev pub build_fails_without_dlq_heap : Bool
build_fails_without_dlq_heap =
    assert_config_error_with
      (build true (
        Builder.shutdown_rx shutdown_rx (
          Builder.config default_config
            (Builder.publisher transport_mock (Builder.storage storage_mock Builder.new)))))
      "Dlq"

abbrev pub build_is_insensitive_to_setter_order : Bool
build_is_insensitive_to_setter_order = on_and_off λ dlq. is_ok (
    build dlq (
      with_heap dlq (
        Builder.storage storage_mock (
          Builder.publisher transport_mock
            (Builder.config default_config (Builder.shutdown_rx shutdown_rx Builder.new))))))

all_pass :
    (test_success_build && default_builder_fails_on_build_with_config_error && new_matches_default
      && build_fails_without_storage && build_fails_without_publisher && build_fails_without_config
      && build_fails_without_shutdown_rx && build_fails_without_dlq_heap
      && build_is_insensitive_to_setter_order)
    ≡ true
unfolding build
all_pass = refl

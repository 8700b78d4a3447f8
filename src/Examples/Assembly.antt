-- ===== src/Examples/Assembly.antt =====
-- A builder that lacks its configuration.
use oxide_outbox.Prelude.{ℕ, true, ◌≡◌}
use oxide_outbox.Exec.{err, config_error}
use oxide_outbox.Examples.Batch.{processor}
use oxide_outbox.Prelude.{List}
use oxide_outbox.Processor.Trace.{Call}
use oxide_outbox.Builder
use oxide_outbox.Builder.{OutboxManagerBuilder, build}
use oxide_outbox.Builder.Build.{build-Built}

abbrev partial : OutboxManagerBuilder ℕ (List Call)
partial = Builder.publisher processor.publisher (Builder.storage processor.storage Builder.new)

build-Built_example : build true partial ≡ err (config_error "Config config is missing")
build-Built_example = build-Built true partial

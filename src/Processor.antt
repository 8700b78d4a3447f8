-- ===== src/Processor.antt =====
-- outbox-core/src/processor.rs: one batch. The feature `dlq` is on where a heap is given, and the
-- feature `metrics` where a facade is.
pub mod Trace
pub mod Publish
pub mod Batch
pub mod Aside
pub mod Steps
pub mod Alone
pub mod Counting
pub mod Refused
pub mod Delivered
pub mod Collected
use oxide_outbox.Prelude.{
  ℕ, String, Bool, true, false, Option, none, some, List, [], ◌∷◌, ◌++◌, is_empty, length,
  if◌then◌else◌,
}
use oxide_outbox.Exec.{Outcome, ok, err, panicked, Exec, pure, panic, effect, ◌>>=◌, ◌>>◌}
use oxide_outbox.Object.EventId.{EventId}
use oxide_outbox.Object.EventType
use oxide_outbox.Runtime.{Metrics}
use oxide_outbox.Model.{Event, sent}
use oxide_outbox.Config.{OutboxConfig}
use oxide_outbox.Traits.{OutboxStorage, Transport, DlqHeap}

pub record OutboxProcessor (P W : Type 0) : Type 0 where
  pub storage : OutboxStorage P W
  pub publisher : Transport P W
  pub config : OutboxConfig P

-- `OutboxProcessor::new`
abbrev pub new :
    {P W : Type 0} → OutboxStorage P W → Transport P W → OutboxConfig P → OutboxProcessor P W
new storage publisher config = record { storage = storage; publisher = publisher; config = config }

-- `#[cfg(feature = "dlq")] dlq_heap.record_success(id).await?`
abbrev pub note_success : {W : Type 0} → Option (DlqHeap W) → EventId → Exec W (Unit {0})
note_success none id = pure tt
note_success (some heap) id = heap.record_success id

-- `#[cfg(feature = "dlq")] dlq_heap.record_failure(id).await?`
abbrev pub note_failure : {W : Type 0} → Option (DlqHeap W) → EventId → Exec W (Unit {0})
note_failure none id = pure tt
note_failure (some heap) id = heap.record_failure id

-- The counter and the histogram of a delivered event.
abbrev pub success_metrics : {W : Type 0} → Option (Metrics W) → String → W → W
success_metrics none event_type w = w
success_metrics (some m) event_type w =
    m.observe "outbox.publish_duration_seconds" (("event_type", event_type) ∷ []) (
      m.increment "outbox.events_total" (("status", "success") ∷ ("event_type", event_type) ∷ []) w)

-- The counter and the histogram of a refused event.
abbrev pub error_metrics : {W : Type 0} → Option (Metrics W) → String → W → W
error_metrics none event_type w = w
error_metrics (some m) event_type w =
    m.observe "outbox.publish_duration_seconds"
      (("status", "error") ∷ ("event_type", event_type) ∷ [])
      (m.increment "outbox.events_total" (("status", "error") ∷ ("event_type", event_type) ∷ []) w)

-- `if !success_ids.is_empty() { … }` at the end of `event_publish`.
unfoldable pub mark : {P W : Type 0} → OutboxProcessor P W → List EventId → Exec W (Unit {0})
mark p success_ids =
    if is_empty success_ids then pure tt else p.storage.update_status success_ids sent

module _ {P W : Type 0} (heap : Option (DlqHeap W)) (metrics : Option (Metrics W)) where
  -- The `match` on the outcome of `publish`; a panic unwinds through it.
  unfoldable pub settle : Event P → List EventId → Outcome (Unit {0}) → Exec W (List EventId)
  settle event success_ids (ok _) = do
    note_success heap event.id
    effect λ w. (tt, success_metrics metrics (EventType.to_string event.event_type) w)
    pure (success_ids ++ event.id ∷ [])
  settle event success_ids (err e) = do
    note_failure heap event.id
    effect λ w. (tt, error_metrics metrics (EventType.to_string event.event_type) w)
    pure success_ids
  settle event success_ids (panicked s) = panic s

  -- One round of the `for` loop.
  unfoldable pub publish_one : OutboxProcessor P W → Event P → List EventId → Exec W (List EventId)
  unfolding settle
  publish_one p event success_ids w =
      let (published, w') = p.publisher.publish event w in settle event success_ids published w'

  -- The `for` loop, with the identifiers pushed so far.
  unfoldable pub publish_all :
      OutboxProcessor P W → List (Event P) → List EventId → Exec W (List EventId)
  publish_all p [] success_ids = pure success_ids
  publish_all p (event ∷ events) success_ids = do
    success_ids' ← publish_one p event success_ids
    publish_all p events success_ids'

  -- `event_publish`
  unfoldable pub event_publish : OutboxProcessor P W → List (Event P) → Exec W (Unit {0})
  unfolding publish_all publish_one mark
  event_publish p events = do success_ids ← publish_all p events []; mark p success_ids

  -- `process_pending_events`
  unfoldable pub process_pending_events : OutboxProcessor P W → Exec W ℕ
  process_pending_events p = do
    events ← p.storage.fetch_next_to_process p.config.batch_size
    if is_empty events then pure 0 else (event_publish p events >> pure (length events))

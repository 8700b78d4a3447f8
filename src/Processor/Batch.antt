-- ===== src/Processor/Batch.antt =====
-- `process_pending_events` in processor.rs as a whole.
use mathlib.Core.List.{append-nil, append_assoc}
use oxide_outbox.Prelude.{
  ℕ, suc, ◌≡◌, refl, sym, ◌∙◌, ap, inl, inr, Option, some, List, [], ◌∷◌, ◌++◌, length, is_empty,
  if◌then◌else◌, arith,
}
use oxide_outbox.Exec.{ok, Exec, pure, ◌>>◌}
use oxide_outbox.Exec.Laws.{Outcome-cases}
use oxide_outbox.Object.EventId.{EventId}
use oxide_outbox.Runtime.{Metrics}
use oxide_outbox.Model.{Event, sent}
use oxide_outbox.Traits.{DlqHeap}
use oxide_outbox.Processor.{
  OutboxProcessor, publish_all, mark, event_publish, process_pending_events,
}
use oxide_outbox.Processor.Trace.{
  Call, fetched, IsJournaled, Verdicts, events_of, calls, accepted, final_call,
}
use oxide_outbox.Processor.Publish.{publish_all-calls}

length-events_of : {P : Type 0} (vs : Verdicts P) → length (events_of vs) ≡ length vs
length-events_of [] = refl
length-events_of ((e, v) ∷ vs) = ap suc (length-events_of vs)

module _ {P W : Type 0} (heap : DlqHeap W) (metrics : Option (Metrics W)) (p : OutboxProcessor P W)
    (journal : W → List Call) (c : IsJournaled journal p.storage p.publisher heap metrics) where
  mark-calls : (ids : List EventId) (w : W) → journal (mark p ids w).1 ≡ journal w ++ final_call ids
  unfolding mark
  mark-calls [] w = sym (append-nil _)
  mark-calls (id ∷ ids) w = c.at_update (id ∷ ids) sent w

  event_publish-calls :
      (es : List (Event P)) (w : W) (u : Unit {0})
      → (event_publish (some heap) metrics p es w).0 ≡ ok u
      → (vs : Verdicts P) × (events_of vs ≡ es)
        × (journal (event_publish (some heap) metrics p es w).1
            ≡ journal w ++ (calls vs ++ final_call (accepted vs)))
  unfolding event_publish
  event_publish-calls es w u h =
      elim (Outcome-cases (publish_all (some heap) metrics p es [] w).0) [
        | inl (ids, q) ↦
            let w1 = (publish_all (some heap) metrics p es [] w).1 in
            let (vs, all, rest, collected) =
              publish_all-calls heap metrics p journal c es [] ids w q in
            (
              vs,
              all,
              rw q (
                  mark-calls ids w1
                  ∙ ap (λ l. l ++ final_call ids) rest
                  ∙ append_assoc (journal w) (calls vs) (final_call ids)
                  ∙ ap (λ l. journal w ++ (calls vs ++ final_call l)) collected),
            )
        | inr q ↦ absurd (ground arith)
      ]

  -- What follows the fetch.
  abbrev rest : List (Event P) → Exec W ℕ
  rest es =
      if is_empty es then pure 0 else (event_publish (some heap) metrics p es >> pure (length es))

  rest-calls :
      (es : List (Event P)) (w : W) (n : ℕ)
      → (rest es w).0 ≡ ok n
      → (vs : Verdicts P) × (events_of vs ≡ es)
        × (n ≡ length vs)
        × (journal (rest es w).1 ≡ journal w ++ (calls vs ++ final_call (accepted vs)))
  rest-calls [] w n h = ([], refl, ground arith, sym (append-nil _))
  rest-calls (e ∷ es) w n h =
      elim (Outcome-cases (event_publish (some heap) metrics p (e ∷ es) w).0) [
        | inl (u, q) ↦
            let (vs, all, made) = event_publish-calls (e ∷ es) w u q in
            (vs, all, ground (arith, length-events_of vs, ap (λ l. length l) all), rw q made)
        | inr q ↦ absurd (ground arith)
      ]

  -- A batch that returns `Ok n`: `n` events were fetched, with one fetch of `batch_size`; then each
  -- was published once, in the fetched order, and noted in the heap as a success or a failure by
  -- the broker's verdict; then one status update, to `Sent`, named exactly the accepted ones, in
  -- order, or was left out where there were none. Nothing else was called. Every operation enters
  -- itself in the journal.
  pub process_pending_events-calls :
      (w : W) (n : ℕ)
      → (process_pending_events (some heap) metrics p w).0 ≡ ok n
      → (vs : Verdicts P) × ((p.storage.fetch_next_to_process p.config.batch_size w).0
          ≡ ok (events_of vs))
        × (n ≡ length vs)
        × (journal (process_pending_events (some heap) metrics p w).1
            ≡ journal w ++ fetched p.config.batch_size ∷ (calls vs ++ final_call (accepted vs)))
  unfolding process_pending_events
  process_pending_events-calls w n h =
      elim (Outcome-cases (p.storage.fetch_next_to_process p.config.batch_size w).0) [
        | inl (es, q) ↦
            let w1 = (p.storage.fetch_next_to_process p.config.batch_size w).1 in
            let (vs, all, count, made) = rest-calls es w1 n (rw q at h) in
            let before = c.at_fetch p.config.batch_size w in
            let after = calls vs ++ final_call (accepted vs) in
            (
              vs,
              q ∙ ap ok (sym all),
              count,
              rw q (made ∙ ap (λ l. l ++ after) before ∙ append_assoc (journal w) (_ ∷ []) after),
            )
        | inr q ↦ absurd (ground arith)
      ]

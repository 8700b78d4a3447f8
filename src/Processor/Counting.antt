-- ===== src/Processor/Counting.antt =====
-- What a batch of processor.rs does to the failure counts of the heap.
use oxide_outbox.Prelude.{
  ℕ, Bool, true, false, ◌≡◌, refl, ◌∙◌, ap, inl, inr, Option, some, List, [], ◌∷◌, length, is_empty,
  if◌then◌else◌, arith, String,
}
use oxide_outbox.Exec.{Outcome, ok, err, panicked, pure, ◌>>◌}
use oxide_outbox.Exec.Laws.{Outcome-cases}
use oxide_outbox.Object.EventId.{EventId}
use oxide_outbox.Runtime.{Metrics}
use oxide_outbox.Model.{Event, sent, EventStatus}
use oxide_outbox.Traits.{DlqHeap}
use oxide_outbox.Heap.{Counts, IsHeap}
use oxide_outbox.Heap.Replay.{Op, fail, succeed, effect_of, replay}
use oxide_outbox.Processor.{
  OutboxProcessor, success_metrics, error_metrics, settle, publish_one, publish_all, mark,
  event_publish, process_pending_events,
}
use oxide_outbox.Processor.Trace.{is_ok}

-- Only the heap touches the counts, and the broker's verdict is the event's.
pub record IsJudged {P W : Type 0} (counts : W → Counts) (accepts : Event P → Bool)
    (p : OutboxProcessor P W) (metrics : Option (Metrics W)) : Type 0 where
  pub verdict : (e : Event P) (w : W) → is_ok (p.publisher.publish e w).0 ≡ accepts e
  pub at_publish : (e : Event P) (w : W) → counts (p.publisher.publish e w).1 ≡ counts w
  pub at_fetch : (n : ℕ) (w : W) → counts (p.storage.fetch_next_to_process n w).1 ≡ counts w
  pub at_update :
      (ids : List EventId) (st : EventStatus) (w : W)
      → counts (p.storage.update_status ids st w).1 ≡ counts w
  pub at_success_metrics : (ty : String) (w : W) → counts (success_metrics metrics ty w) ≡ counts w
  pub at_error_metrics : (ty : String) (w : W) → counts (error_metrics metrics ty w) ≡ counts w

-- What the heap is told of an event.
abbrev pub noted : {P : Type 0} → Event P → Bool → Op
noted e true = succeed e.id
noted e false = fail e.id

abbrev pub notes : {P : Type 0} → (Event P → Bool) → List (Event P) → List Op
notes accepts [] = []
notes accepts (e ∷ es) = noted e (accepts e) ∷ notes accepts es

module _ {P W : Type 0} (most : ℕ) (counts : W → Counts) (accepts : Event P → Bool)
    (heap : DlqHeap W) (metrics : Option (Metrics W)) (p : OutboxProcessor P W)
    (h : IsHeap most counts heap) (c : IsJudged counts accepts p metrics) where
  settle-counts :
      (e : Event P) (ids ids' : List EventId) (r : Outcome (Unit {0})) (w : W) (u : ℕ)
      → (settle (some heap) metrics e ids r w).0 ≡ ok ids'
      → counts (settle (some heap) metrics e ids r w).1 u
        ≡ effect_of most (noted e (is_ok r)) u (counts w u)
  unfolding settle
  settle-counts e ids ids' (ok a) w u q = elim (Outcome-cases (heap.record_success e.id w).0) [
    | inl (b, t) ↦
        let done = h.succeeds e.id w in
        let counted = rw t at done in rw t (ap (λ f. f u) (c.at_success_metrics _ _) ∙ counted u)
    | inr t ↦ absurd (ground arith)
  ]
  settle-counts e ids ids' (err x) w u q = elim (Outcome-cases (heap.record_failure e.id w).0) [
    | inl (b, t) ↦
        let done = h.fails e.id w in
        let counted = rw t at done in rw t (ap (λ f. f u) (c.at_error_metrics _ _) ∙ counted u)
    | inr t ↦ absurd (ground arith)
  ]
  settle-counts e ids ids' (panicked x) w u q = cc

  publish_all-counts :
      (es : List (Event P)) (ids ids' : List EventId) (w : W) (u : ℕ)
      → (publish_all (some heap) metrics p es ids w).0 ≡ ok ids'
      → counts (publish_all (some heap) metrics p es ids w).1 u
        ≡ replay most (notes accepts es) u (counts w u)
  unfolding publish_all publish_one
  publish_all-counts [] ids ids' w u q = refl
  publish_all-counts (e ∷ es) ids ids' w u q =
      elim (Outcome-cases (publish_one (some heap) metrics p e ids w).0) [
        | inl (mid, t) ↦
            let w1 = (publish_one (some heap) metrics p e ids w).1 in
            let (r, w0) = p.publisher.publish e w in
            rw t (
              publish_all-counts es mid ids' w1 u (rw t at q)
              ∙ ap (replay most (notes accepts es) u) (
                  settle-counts e ids mid r w0 u t
                  ∙ ap (λ v. effect_of most (noted e v) u (counts w0 u)) (c.verdict e w)
                  ∙ ap (λ f. effect_of most (noted e (accepts e)) u (f u)) (c.at_publish e w)))
        | inr t ↦ absurd (ground arith)
      ]

  mark-counts : (ids : List EventId) (w : W) → counts (mark p ids w).1 ≡ counts w
  unfolding mark
  mark-counts [] w = refl
  mark-counts (id ∷ ids) w = c.at_update (id ∷ ids) sent w

  event_publish-counts :
      (es : List (Event P)) (w : W) (a : Unit {0}) (u : ℕ)
      → (event_publish (some heap) metrics p es w).0 ≡ ok a
      → counts (event_publish (some heap) metrics p es w).1 u
        ≡ replay most (notes accepts es) u (counts w u)
  unfolding event_publish
  event_publish-counts es w a u q =
      elim (Outcome-cases (publish_all (some heap) metrics p es [] w).0) [
        | inl (ids, t) ↦ rw t (
            ap (λ f. f u) (mark-counts ids (publish_all (some heap) metrics p es [] w).1)
            ∙ publish_all-counts es [] ids w u t)
        | inr t ↦ absurd (ground arith)
      ]

  rest-counts :
      (es : List (Event P)) (w : W) (n u : ℕ)
      → let rest =
          if is_empty es
          then pure 0
          else (event_publish (some heap) metrics p es >> pure (length es)) in
        (rest w).0 ≡ ok n → counts (rest w).1 u ≡ replay most (notes accepts es) u (counts w u)
  rest-counts [] w n u q = refl
  rest-counts (e ∷ es) w n u q =
      elim (Outcome-cases (event_publish (some heap) metrics p (e ∷ es) w).0) [
        | inl (a, t) ↦ rw t (event_publish-counts (e ∷ es) w a u t)
        | inr t ↦ absurd (ground arith)
      ]

  -- The counts behind a batch that returns `Ok` replay the verdicts on the fetched events.
  pub process_pending_events-counts :
      (w : W) (n u : ℕ) (es : List (Event P))
      → (p.storage.fetch_next_to_process p.config.batch_size w).0 ≡ ok es
      → (process_pending_events (some heap) metrics p w).0 ≡ ok n
      → counts (process_pending_events (some heap) metrics p w).1 u
        ≡ replay most (notes accepts es) u (counts w u)
  unfolding process_pending_events
  process_pending_events-counts w n u es f q =
      let w1 = (p.storage.fetch_next_to_process p.config.batch_size w).1 in
      rw f (
        rest-counts es w1 n u (rw f at q)
        ∙ ap (λ g. replay most (notes accepts es) u (g u)) (c.at_fetch p.config.batch_size w))

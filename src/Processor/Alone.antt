-- ===== src/Processor/Alone.antt =====
-- A batch of processor.rs as its calls one by one.
use oxide_outbox.Prelude.{
  ℕ, zero, suc, ◌≡◌, refl, subst, ◌∙◌, ap, Option, List, [], ◌∷◌, length, is_empty, if◌then◌else◌,
}
use oxide_outbox.Exec.{continue, Outcome, ok, err, panicked, pure, ◌>>◌}
use oxide_outbox.Object.EventId.{EventId}
use oxide_outbox.Runtime.{Metrics}
use oxide_outbox.Model.{Event}
use oxide_outbox.Traits.{DlqHeap}
use oxide_outbox.Processor.{
  OutboxProcessor, settle, mark, publish_one, publish_all, event_publish, process_pending_events,
}
use oxide_outbox.Processor.Steps.{
  Phase, ready, sending, noting, finished, advance, iterate, after_fetch, after_publish, after_note,
  after_mark,
}

module _ {P W : Type 0} (heap : Option (DlqHeap W)) (metrics : Option (Metrics W))
    (p : OutboxProcessor P W) where
  -- The calls from a phase on come to an end, with an outcome and a world.
  abbrev pub Ends : Phase P → W → Outcome ℕ × W → Type 0
  Ends c w r = (k : ℕ) × (iterate heap metrics p k (c, w) ≡ (finished r.0, r.1))

  one_more :
      (c c' : Phase P) (w w' : W) (r : Outcome ℕ × W)
      → advance heap metrics p c w ≡ (c', w')
      → Ends c' w' r
      → Ends c w r
  one_more c c' w w' r h (k, e) = (suc k, ap (iterate heap metrics p k) h ∙ e)

  stopped : (r : Outcome ℕ × W) → Ends (finished r.0) r.1 r
  stopped r = (zero, refl)

  -- The rest of a batch behind an outcome of its loop.
  abbrev rest : ℕ → Outcome (List EventId) × W → Outcome ℕ × W
  rest count (ok ids, w) = (mark p ids >> pure count) w
  rest count (err x, w) = (err x, w)
  rest count (panicked s, w) = (panicked s, w)

  mark-Ends :
      (count : ℕ) (o : Outcome (Unit {0}) × W)
      → Ends (after_mark count o.0) o.1 (continue o.0 (λ _. pure count) o.1)
  mark-Ends count (ok u, w) = stopped (ok count, w)
  mark-Ends count (err x, w) = stopped (err x, w)
  mark-Ends count (panicked s, w) = stopped (panicked s, w)

  -- The calls for one event, and then those for the events behind it.
  note-Ends :
      (es : List (Event P)) (count : ℕ) (o : Outcome (List EventId) × W)
      → ((ids : List EventId) (w : W)
          → Ends (sending es ids count) w (rest count (publish_all heap metrics p es ids w)))
      → Ends
          (after_note es count o.0)
          o.1
          (rest count (continue o.0 (λ ids. publish_all heap metrics p es ids) o.1))
  note-Ends es count (ok ids, w) h = h ids w
  note-Ends es count (err x, w) h = stopped (err x, w)
  note-Ends es count (panicked s, w) h = stopped (panicked s, w)

  publish-Ends :
      (e : Event P) (es : List (Event P)) (ids : List EventId) (count : ℕ)
      (o : Outcome (Unit {0}) × W)
      → ((ids : List EventId) (w : W)
          → Ends (sending es ids count) w (rest count (publish_all heap metrics p es ids w)))
      → let noted = settle heap metrics e ids o.0 o.1 in
        Ends
          (after_publish e es ids count o.0)
          o.1
          (rest count (continue noted.0 (λ ids. publish_all heap metrics p es ids) noted.1))
  unfolding advance settle
  publish-Ends e es ids count (ok u, w) h =
      one_more (noting e (ok u) es ids count) _ w _ _ refl
        (note-Ends es count (settle heap metrics e ids (ok u) w) h)
  publish-Ends e es ids count (err x, w) h =
      one_more (noting e (err x) es ids count) _ w _ _ refl
        (note-Ends es count (settle heap metrics e ids (err x) w) h)
  publish-Ends e es ids count (panicked s, w) h = stopped (panicked s, w)

  loop-Ends :
      (es : List (Event P)) (ids : List EventId) (count : ℕ) (w : W)
      → Ends (sending es ids count) w (rest count (publish_all heap metrics p es ids w))
  unfolding advance publish_all publish_one
  loop-Ends [] ids count w =
      one_more (sending [] ids count) _ w _ _ refl (mark-Ends count (mark p ids w))
  loop-Ends (e ∷ es) ids count w = one_more (sending (e ∷ es) ids count) _ w _ _ refl (
      publish-Ends e es ids count (p.publisher.publish e w) (λ ids' w'. loop-Ends es ids' count w'))

  regroup :
      (count : ℕ) (o : Outcome (List EventId) × W)
      → let marked = continue o.0 (mark p) o.1 in
        rest count o ≡ continue marked.0 (λ _. pure count) marked.1
  regroup count (ok ids, w) = refl
  regroup count (err x, w) = refl
  regroup count (panicked s, w) = refl

  fetch-Ends :
      (o : Outcome (List (Event P)) × W)
      → Ends (after_fetch o.0) o.1 (
          continue o.0
            (λ es.
              if is_empty es then pure 0 else (event_publish heap metrics p es >> pure (length es)))
            o.1)
  unfolding event_publish
  fetch-Ends (ok [], w) = stopped (ok 0, w)
  fetch-Ends (ok (e ∷ es), w) =
      subst (Ends (sending (e ∷ es) [] (suc (length es))) w)
        (regroup (suc (length es)) (publish_all heap metrics p (e ∷ es) [] w))
        (loop-Ends (e ∷ es) [] (suc (length es)) w)
  fetch-Ends (err x, w) = stopped (err x, w)
  fetch-Ends (panicked s, w) = stopped (panicked s, w)

  -- A batch is its calls, one by one: from the fetch on, with nobody else acting in between, the
  -- calls come to an end, in the outcome and the world of `process_pending_events`, whatever the
  -- storage, the broker and the heap return.
  pub process_pending_events-Ends : (w : W) → Ends ready w (process_pending_events heap metrics p w)
  unfolding advance process_pending_events
  process_pending_events-Ends w =
      one_more ready _ w _ _ refl
        (fetch-Ends (p.storage.fetch_next_to_process p.config.batch_size w))

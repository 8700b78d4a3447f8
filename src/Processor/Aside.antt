-- ===== src/Processor/Aside.antt =====
-- The loop of `event_publish` in processor.rs, seen from a part of the world that neither the
-- broker nor the heap nor the metrics touch.
use oxide_outbox.Prelude.{String, ◌≡◌, ◌≢◌, refl, ◌∙◌, Option, List, [], ◌∷◌}
use oxide_outbox.Exec.{Outcome, ok, err, panicked}
use oxide_outbox.Exec.Laws.{Keeps, bind-Keeps, Returns, bind-Returns}
use oxide_outbox.Object.EventId.{EventId}
use oxide_outbox.Runtime.{Metrics}
use oxide_outbox.Model.{Event}
use oxide_outbox.Traits.{Transport, DlqHeap}
use oxide_outbox.Processor.{
  OutboxProcessor, note_success, note_failure, success_metrics, error_metrics, settle, publish_one,
  publish_all,
}

pub record IsAside {P W V : Type 0} (view : W → V) (transport : Transport P W)
    (heap : Option (DlqHeap W)) (metrics : Option (Metrics W)) : Type 0 where
  pub publishes : (e : Event P) → Keeps view (transport.publish e)
  pub successes : (id : EventId) → Keeps view (note_success heap id)
  pub failures : (id : EventId) → Keeps view (note_failure heap id)
  pub success_marks : (ty : String) (w : W) → view (success_metrics metrics ty w) ≡ view w
  pub error_marks : (ty : String) (w : W) → view (error_metrics metrics ty w) ≡ view w

-- The broker and the heap may refuse, and do not panic.
pub record IsSteady {P W : Type 0} (transport : Transport P W) (heap : Option (DlqHeap W))
    : Type 0 where
  pub publishes : (e : Event P) → Returns (transport.publish e)
  pub successes : (id : EventId) → Returns (note_success heap id)
  pub failures : (id : EventId) → Returns (note_failure heap id)

module _ {P W : Type 0} (heap : Option (DlqHeap W)) (metrics : Option (Metrics W)) where
  pub settle-Keeps :
      {V : Type 0} (view : W → V) (transport : Transport P W)
      → IsAside view transport heap metrics
      → (e : Event P) (ids : List EventId) (r : Outcome (Unit {0}))
      → Keeps view (settle heap metrics e ids r)
  unfolding settle
  settle-Keeps view t c e ids (ok u) =
      bind-Keeps view (note_success heap e.id) _ (c.successes e.id)
        λ _. record { same = λ w. c.success_marks _ w }
  settle-Keeps view t c e ids (err x) =
      bind-Keeps view (note_failure heap e.id) _ (c.failures e.id)
        λ _. record { same = λ w. c.error_marks _ w }
  settle-Keeps view t c e ids (panicked s) = record { same = λ w. refl }

  pub publish_all-Keeps :
      {V : Type 0} (view : W → V) (p : OutboxProcessor P W)
      → IsAside view p.publisher heap metrics
      → (es : List (Event P)) (ids : List EventId) → Keeps view (publish_all heap metrics p es ids)
  unfolding publish_all publish_one
  publish_all-Keeps view p c [] ids = record { same = λ w. refl }
  publish_all-Keeps view p c (e ∷ es) ids =
      bind-Keeps view (publish_one heap metrics p e ids) _
        (record {
          same = λ w.
              (settle-Keeps view p.publisher c e ids (p.publisher.publish e w).0).same
                (p.publisher.publish e w).1
              ∙ (c.publishes e).same w;
        })
        λ ids'. publish_all-Keeps view p c es ids'

  settle-Returns :
      (transport : Transport P W)
      → IsSteady transport heap
      → (e : Event P) (ids : List EventId) (r : Outcome (Unit {0}))
      → ((s : String) → r ≢ panicked s)
      → Returns (settle heap metrics e ids r)
  unfolding settle
  settle-Returns t c e ids (ok u) h =
      bind-Returns (note_success heap e.id) _ (c.successes e.id) λ _ w s q. cc
  settle-Returns t c e ids (err x) h =
      bind-Returns (note_failure heap e.id) _ (c.failures e.id) λ _ w s q. cc
  settle-Returns t c e ids (panicked s) h = absurd (h s refl)

  pub publish_all-Returns :
      (p : OutboxProcessor P W)
      → IsSteady p.publisher heap
      → (es : List (Event P)) (ids : List EventId) → Returns (publish_all heap metrics p es ids)
  unfolding publish_all publish_one
  publish_all-Returns p c [] ids = λ w s q. cc
  publish_all-Returns p c (e ∷ es) ids =
      bind-Returns (publish_one heap metrics p e ids) _
        (λ w.
          settle-Returns p.publisher c e ids (p.publisher.publish e w).0 (c.publishes e w)
            (p.publisher.publish e w).1)
        λ ids'. publish_all-Returns p c es ids'

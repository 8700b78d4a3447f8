-- ===== src/Processor/Collected.antt =====
-- The loop of `event_publish` in processor.rs: whatever it collects, the broker took.
use mathlib.Core.List.Memᴰ.{head, tail}
use oxide_outbox.Prelude.{inl, inr, ◌≡◌, refl, sym, subst, Option, List, [], ◌∷◌, Memᴰ}
use oxide_outbox.Exec.{Outcome, ok, err, panicked}
use oxide_outbox.Exec.Laws.{bind_post}
use oxide_outbox.Object.EventId.{EventId, as_uuid}
use oxide_outbox.Runtime.{Metrics}
use oxide_outbox.Model.{Event}
use oxide_outbox.Traits.{DlqHeap}
use oxide_outbox.Processor.{
  OutboxProcessor, note_success, note_failure, settle, publish_one, publish_all,
}
use oxide_outbox.Processor.Delivered.{IsTopic, Has, Has-only}

module _ {P W : Type 0} (took : W → Event P → Type 0) (heap : Option (DlqHeap W))
    (metrics : Option (Metrics W)) (p : OutboxProcessor P W)
    (c : IsTopic took p.publisher heap metrics) (all : List (Event P))
    (one_each : (e f : Event P)
      → Memᴰ e all
      → Memᴰ f all
      → as_uuid f.id ≡ as_uuid e.id
      → f ≡ e) where
  -- Of the events of the batch, those with a collected identifier were taken.
  abbrev pub Sound : List EventId → W → Type 0
  Sound ids w = (f : Event P) → Memᴰ f all → Has ids (as_uuid f.id) → took w f

  -- What is collected where an action ends normally.
  abbrev Soundly : Outcome (List EventId) → W → Type 0
  Soundly (ok ids) w = Sound ids w
  Soundly _ w = Unit {0}

  settle-Soundly :
      (e : Event P) (ids : List EventId) (r : Outcome (Unit {0})) (w : W)
      → Memᴰ e all
      → (r ≡ ok tt → took w e)
      → Sound ids w
      → let done = settle heap metrics e ids r w in Soundly done.0 done.1
  unfolding settle
  settle-Soundly e ids (ok u) w i now s =
      bind_post Soundly (note_success heap e.id) _ w
        (λ a q f j held. c.by_success_metrics _ f _ (
          c.by_success e.id f w (elim (Has-only ids e.id _ held) [
            | inl old ↦ s f j old
            | inr same ↦ subst (took w) (sym (one_each e f i j same)) (now refl)
          ])))
        (λ x q. tt) (λ m q. tt)
  settle-Soundly e ids (err x) w i now s =
      bind_post Soundly (note_failure heap e.id) _ w
        (λ a q f j held. c.by_error_metrics _ f _ (c.by_failure e.id f w (s f j held))) (λ y q. tt)
        (λ m q. tt)
  settle-Soundly e ids (panicked m) w i now s = tt

  pub publish_all-Soundly :
      (es : List (Event P)) (ids : List EventId) (w : W)
      → ((f : Event P) → Memᴰ f es → Memᴰ f all)
      → Sound ids w
      → let done = publish_all heap metrics p es ids w in Soundly done.0 done.1
  unfolding publish_all publish_one
  publish_all-Soundly [] ids w sub s = s
  publish_all-Soundly (e ∷ es) ids w sub s =
      let (r, w') = p.publisher.publish e w in
      let first =
        settle-Soundly e ids r w' (sub e (head refl)) (λ q. c.accepts e w q)
          (λ f j held. c.by_publish e f w (s f j held)) in
      bind_post Soundly (publish_one heap metrics p e ids) _ w
        (λ ids' q.
          publish_all-Soundly es ids' (publish_one heap metrics p e ids w).1 (λ f j. sub f (tail j))
            (subst (λ o. Soundly o (publish_one heap metrics p e ids w).1) q first))
        (λ x q. tt) (λ m q. tt)

-- ===== src/Processor/Publish.antt =====
-- The loop of `event_publish` in processor.rs, round by round.
use mathlib.Core.List.{append-nil, append_assoc}
use oxide_outbox.Prelude.{
  Bool, true, false, ◌≡◌, refl, sym, ◌∙◌, ap, inl, inr, Option, some, List, [], ◌∷◌, ◌++◌, arith,
}
use oxide_outbox.Exec.{Outcome, ok, err, panicked}
use oxide_outbox.Exec.Laws.{Outcome-cases}
use oxide_outbox.Object.EventId.{EventId}
use oxide_outbox.Runtime.{Metrics}
use oxide_outbox.Model.{Event}
use oxide_outbox.Traits.{DlqHeap}
use oxide_outbox.Processor.{OutboxProcessor, settle, publish_one, publish_all}
use oxide_outbox.Processor.Trace.{
  Call, published, succeeded, failed, is_ok, IsJournaled, calls_of, Verdicts, events_of, calls,
  accepted,
}

-- A list that two entries were added to.
two {ℓ} :
    {A : Type ℓ} {a b : List A} (l : List A) (x y : A)
    → a ≡ l ++ x ∷ []
    → b ≡ a ++ y ∷ []
    → b ≡ l ++ x ∷ y ∷ []
two l x y p q = q ∙ ap (λ t. t ++ y ∷ []) p ∙ append_assoc l (x ∷ []) (y ∷ [])

abbrev push : Bool → EventId → List EventId → List EventId
push true id ids = ids ++ id ∷ []
push false id ids = ids

push-accepted :
    {P : Type 0} (e : Event P) (v : Bool) (ids : List EventId) (vs : Verdicts P)
    → push v e.id ids ++ accepted vs ≡ ids ++ accepted ((e, v) ∷ vs)
push-accepted e true ids vs = append_assoc ids (e.id ∷ []) (accepted vs)
push-accepted e false ids vs = refl

module _ {P W : Type 0} (heap : DlqHeap W) (metrics : Option (Metrics W)) (p : OutboxProcessor P W)
    (journal : W → List Call) (c : IsJournaled journal p.storage p.publisher heap metrics) where
  settle-calls :
      (e : Event P) (ids ids' : List EventId) (before : List Call) (r : Outcome (Unit {0})) (w : W)
      → journal w ≡ before ++ published e.id (is_ok r) ∷ []
      → (settle (some heap) metrics e ids r w).0 ≡ ok ids'
      → (v : Bool) × (journal (settle (some heap) metrics e ids r w).1 ≡ before ++ calls_of e v)
        × (ids' ≡ push v e.id ids)
  unfolding settle
  settle-calls e ids ids' before (ok u) w j h =
      elim (Outcome-cases (heap.record_success e.id w).0) [
        | inl (_, q) ↦
            let full = two before (published e.id true) (succeeded e.id) j (c.at_success e.id w) in
            (true, rw q (c.at_success_metrics _ _ ∙ full), ground arith)
        | inr q ↦ absurd (ground arith)
      ]
  settle-calls e ids ids' before (err x) w j h =
      elim (Outcome-cases (heap.record_failure e.id w).0) [
        | inl (_, q) ↦
            let full = two before (published e.id false) (failed e.id) j (c.at_failure e.id w) in
            (false, rw q (c.at_error_metrics _ _ ∙ full), ground arith)
        | inr q ↦ absurd (ground arith)
      ]
  settle-calls e ids ids' before (panicked x) w j h = cc

  publish_one-calls :
      (e : Event P) (ids ids' : List EventId) (w : W)
      → (publish_one (some heap) metrics p e ids w).0 ≡ ok ids'
      → (v : Bool) × (journal (publish_one (some heap) metrics p e ids w).1
          ≡ journal w ++ calls_of e v)
        × (ids' ≡ push v e.id ids)
  unfolding publish_one
  publish_one-calls e ids ids' w h =
      settle-calls e ids ids' (journal w) (p.publisher.publish e w).0 (p.publisher.publish e w).1
        (c.at_publish e w) h

  -- A loop that ends normally has published every event, in order, each with its verdict noted, and
  -- has collected the accepted identifiers behind those that it began with.
  pub publish_all-calls :
      (es : List (Event P)) (ids ids' : List EventId) (w : W)
      → (publish_all (some heap) metrics p es ids w).0 ≡ ok ids'
      → (vs : Verdicts P) × (events_of vs ≡ es)
        × (journal (publish_all (some heap) metrics p es ids w).1 ≡ journal w ++ calls vs)
        × (ids' ≡ ids ++ accepted vs)
  unfolding publish_all
  publish_all-calls [] ids ids' w h = ([], refl, sym (append-nil _), ground (arith, append-nil ids))
  publish_all-calls (e ∷ es) ids ids' w h =
      elim (Outcome-cases (publish_one (some heap) metrics p e ids w).0) [
        | inl (mid, q) ↦
            let w1 = (publish_one (some heap) metrics p e ids w).1 in
            let (v, first, pushed) = publish_one-calls e ids mid w q in
            let (vs, all, rest, collected) = publish_all-calls es mid ids' w1 (rw q at h) in
            (
              (e, v) ∷ vs,
              ap (λ l. e ∷ l) all,
              rw q (
                  rest
                  ∙ ap (λ l. l ++ calls vs) first
                  ∙ append_assoc (journal w) (calls_of e v) (calls vs)),
              collected ∙ ap (λ l. l ++ accepted vs) pushed ∙ push-accepted e v ids vs,
            )
        | inr q ↦ absurd (ground arith)
      ]

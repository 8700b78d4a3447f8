-- ===== src/Processor/Trace.antt =====
-- The calls that processor.rs makes of its collaborators, as a journal of the world, and the
-- journal that a batch should leave.
use oxide_outbox.Prelude.{ℕ, Bool, true, false, ◌≡◌, Option, List, [], ◌∷◌, ◌++◌}
use oxide_outbox.Exec.{Outcome, ok, err, panicked}
use oxide_outbox.Object.EventId.{EventId}
use oxide_outbox.Runtime.{Metrics}
use oxide_outbox.Model.{Event, EventStatus, sent}
use oxide_outbox.Traits.{OutboxStorage, Transport, DlqHeap}
use oxide_outbox.Processor.{success_metrics, error_metrics}

pub data Call : Type 0 where
  fetched : ℕ → Call
  published : EventId → Bool → Call
  succeeded : EventId → Call
  failed : EventId → Call
  marked : List EventId → EventStatus → Call

abbrev pub is_ok : {A : Type 0} → Outcome A → Bool
is_ok (ok a) = true
is_ok (err e) = false
is_ok (panicked s) = false

-- Each operation enters itself in the journal, whatever it returns.
pub record IsJournaled {P W : Type 0} (journal : W → List Call) (storage : OutboxStorage P W)
    (transport : Transport P W) (heap : DlqHeap W) (metrics : Option (Metrics W)) : Type 0 where
  pub at_fetch :
      (n : ℕ) (w : W) → journal (storage.fetch_next_to_process n w).1 ≡ journal w ++ fetched n ∷ []
  pub at_publish :
      (e : Event P) (w : W)
      → journal (transport.publish e w).1
        ≡ journal w ++ published e.id (is_ok (transport.publish e w).0) ∷ []
  pub at_success :
      (id : EventId) (w : W) → journal (heap.record_success id w).1 ≡ journal w ++ succeeded id ∷ []
  pub at_failure :
      (id : EventId) (w : W) → journal (heap.record_failure id w).1 ≡ journal w ++ failed id ∷ []
  pub at_update :
      (ids : List EventId) (st : EventStatus) (w : W)
      → journal (storage.update_status ids st w).1 ≡ journal w ++ marked ids st ∷ []
  pub at_success_metrics : (ty : _) (w : W) → journal (success_metrics metrics ty w) ≡ journal w
  pub at_error_metrics : (ty : _) (w : W) → journal (error_metrics metrics ty w) ≡ journal w

-- The calls for one event, by the broker's verdict.
abbrev pub calls_of : {P : Type 0} → Event P → Bool → List Call
calls_of e true = published e.id true ∷ succeeded e.id ∷ []
calls_of e false = published e.id false ∷ failed e.id ∷ []

-- Events with the verdict of the broker on each.
abbrev pub Verdicts : Type 0 → Type 0
Verdicts P = List (Event P × Bool)

abbrev pub events_of : {P : Type 0} → Verdicts P → List (Event P)
events_of [] = []
events_of ((e, v) ∷ vs) = e ∷ events_of vs

abbrev pub calls : {P : Type 0} → Verdicts P → List Call
calls [] = []
calls ((e, v) ∷ vs) = calls_of e v ++ calls vs

-- The identifiers of the accepted events, in order.
abbrev pub accepted : {P : Type 0} → Verdicts P → List EventId
accepted [] = []
accepted ((e, true) ∷ vs) = e.id ∷ accepted vs
accepted ((e, false) ∷ vs) = accepted vs

abbrev pub final_call : List EventId → List Call
final_call [] = []
final_call (id ∷ ids) = marked (id ∷ ids) sent ∷ []

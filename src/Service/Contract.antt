-- ===== src/Service/Contract.antt =====
-- `OutboxService::add_event` as a whole: one row on success and none otherwise.
use mathlib.Core.Option
use oxide_outbox.Prelude.{String, ◌≡◌, refl, ap, ◌∙◌, Option, List, ◌∷◌}
use oxide_outbox.Exec.{Outcome, ok, err, panicked, Exec, effect, ◌>>=◌, ◌>>◌}
use oxide_outbox.Exec.Laws.{bind_post}
use oxide_outbox.Object.IdempotencyToken
use oxide_outbox.Object.EventType
use oxide_outbox.Object.Payload
use oxide_outbox.Object.IdempotencyToken.{IdempotencyToken}
use oxide_outbox.Runtime.{Runtime}
use oxide_outbox.Model.{Event, new_event}
use oxide_outbox.Config.{IdempotencyStrategy, invoke}
use oxide_outbox.Traits.{OutboxWriter}
use oxide_outbox.Service.{OutboxService, reserve, add_event}
use oxide_outbox.Service.AddEvent.{
  IsWriter, IsApart, Fresh, TokenOf, Recorded, invoke-TokenOf, invoke-Keeps, reserve-Keeps,
}

module _ {P W : Type 0} (rt : Runtime W) (rows : W → List (Event P)) where
  rows-new_event :
      (ty : EventType.EventType) (p : Payload.Payload P) (t : Option IdempotencyToken)
      → ((w : W) → rows (rt.new_v4 w).1 ≡ rows w)
      → ((w : W) → rows (rt.now_utc w).1 ≡ rows w)
      → (w : W) → rows (new_event rt ty p t w).1 ≡ rows w
  unfolding new_event
  rows-new_event ty p t v4 clock w = clock (rt.new_v4 w).1 ∙ v4 w

  -- The insert, whose event is as the caller asked.
  insert-Recorded :
      (writer : OutboxWriter P W)
      → IsWriter rows writer
      → (strategy : IdempotencyStrategy P) (event_type : String) (payload : P)
        (given : Option String) (before : List (Event P)) (e : Event P)
      → Fresh event_type payload e
      → TokenOf strategy given e.idempotency_token
      → (w : W) → rows w ≡ before
      → (r : Outcome (Unit {0})) → (writer.insert_event e w).0 ≡ r
      → Recorded strategy event_type payload given before r (rows (writer.insert_event e w).1)
  insert-Recorded writer c strategy ty p given before e fresh token w same (ok u) h =
      (e, c.adds e w h ∙ ap (λ l. e ∷ l) same, fresh, token)
  insert-Recorded writer c strategy ty p given before e fresh token w same (err x) h =
      c.refuses e w x h ∙ same
  insert-Recorded writer c strategy ty p given before e fresh token w same (panicked x) h =
      c.aborts e w x h ∙ same

-- The calls of `add_event` behind `invoke`.
finish :
    {P W : Type 0} → Runtime W → OutboxService P W → String → P → Option String → Exec W (Unit {0})
finish rt s event_type payload text =
    reserve s.idempotency_storage (Option.map IdempotencyToken.new text)
    >> (effect (
          new_event rt (EventType.new event_type) (Payload.new payload)
            (Option.map IdempotencyToken.new text))
        >>= λ event. s.writer.insert_event event)

-- On success `add_event` has added exactly one row to the writer's table: pending, unlocked, with
-- the given type and payload and the token of the configured strategy. On an error or a panic,
-- of whichever call, the rows are those of before. The writer keeps its contract, and no other
-- collaborator touches the rows.
pub add_event-Recorded :
    {P W : Type 0} (rt : Runtime W) (s : OutboxService P W) (rows : W → List (Event P))
    (event_type : String) (payload : P) (given : Option String)
    (get_event : Exec W (Option (Event P))) (w : W)
    → IsWriter rows s.writer
    → IsApart rows rt get_event s.idempotency_storage
    → let done = add_event rt s event_type payload given get_event w in
      Recorded s.config.idempotency_strategy event_type payload given (rows w) done.0 (rows done.1)
unfolding add_event new_event finish
add_event-Recorded rt s rows event_type payload given get_event w c apart =
    let strategy = s.config.idempotency_strategy in
    let Q = λ (r : Outcome (Unit {0})) (v : _).
      Recorded strategy event_type payload given (rows w) r (rows v) in
    let asked =
      (invoke-Keeps rt get_event rows strategy given (record { same = apart.at_event })
          (record { same = apart.at_v7 })).same
        w in
    bind_post Q (invoke rt strategy given get_event) (finish rt s event_type payload) w
      (λ t e.
        let token = Option.map IdempotencyToken.new t in
        let w1 = (invoke rt strategy given get_event w).1 in
        let w2 = (reserve s.idempotency_storage token w1).1 in
        let held =
          (reserve-Keeps rows s.idempotency_storage
              (λ p q t. record { same = apart.at_reserve p q t }) token).same
            w1
          ∙ asked in
        bind_post Q (reserve s.idempotency_storage token) _ w1
          (λ _ _.
            insert-Recorded rt rows s.writer c strategy event_type payload given (rows w)
              (new_event rt (EventType.new event_type) (Payload.new payload) token w2).0
              (refl, refl, refl, refl) (invoke-TokenOf rt get_event strategy given w t e) _
              (rows-new_event rt rows (EventType.new event_type) (Payload.new payload) token
                  apart.at_v4 apart.at_clock w2
                ∙ held)
              _ refl)
          (λ _ _. held) (λ _ _. held))
      (λ _ _. asked) (λ _ _. asked)

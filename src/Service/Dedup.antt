-- ===== src/Service/Dedup.antt =====
-- Deduplication at the producer: service.rs with a provider that keeps what it has reserved.
use oxide_outbox.Prelude.{ap, ◌⊎◌, inl, inr, String, true, false, ◌≡◌, Option, some, arith}
use oxide_outbox.Exec.{Outcome, OutboxError, ok, err, Exec, duplicate_event}
use oxide_outbox.Object.IdempotencyToken.{IdempotencyToken, new}
use oxide_outbox.Object.EventType
use oxide_outbox.Object.Payload
use oxide_outbox.Runtime.{Runtime}
use oxide_outbox.Model.{Event, new_event}
use oxide_outbox.Config.{provided, invoke}
use oxide_outbox.Traits.{OutboxWriter, IdempotencyStorageProvider}
use oxide_outbox.Service.{OutboxService, reserve, add_event}

-- A token that `try_reserve` has given out is taken, and nothing that an `add_event` does after it
-- gives it back.
pub record IsTaking {P W : Type 0} (taken : IdempotencyToken → W → Type 0) (rt : Runtime W)
    (writer : OutboxWriter P W) (provider : IdempotencyStorageProvider W) : Type 0 where
  pub claims :
      (t : IdempotencyToken) (w : W)
      → (provider.try_reserve t w).0 ≡ ok true
      → taken t (provider.try_reserve t w).1
  pub at_v4 : (t : IdempotencyToken) (w : W) → taken t w → taken t (rt.new_v4 w).1
  pub at_clock : (t : IdempotencyToken) (w : W) → taken t w → taken t (rt.now_utc w).1
  pub at_insert :
      (t : IdempotencyToken) (e : Event P) (w : W) → taken t w → taken t (writer.insert_event e w).1

-- A provider that always answers, and rejects what is taken.
pub record IsReserving {P W : Type 0} (taken : IdempotencyToken → W → Type 0) (rt : Runtime W)
    (writer : OutboxWriter P W) (provider : IdempotencyStorageProvider W) : Type 0 where
  pub taking : IsTaking taken rt writer provider
  pub rejects : (t : IdempotencyToken) (w : W) → taken t w → (provider.try_reserve t w).0 ≡ ok false

-- A provider that may fail: a taken token is rejected, or the call returns an error.
pub record IsGuarding {P W : Type 0} (taken : IdempotencyToken → W → Type 0) (rt : Runtime W)
    (writer : OutboxWriter P W) (provider : IdempotencyStorageProvider W) : Type 0 where
  pub taking : IsTaking taken rt writer provider
  pub guards :
      (t : IdempotencyToken) (w : W)
      → taken t w
      → ((provider.try_reserve t w).0 ≡ ok false)
        ⊎ ((x : OutboxError) × ((provider.try_reserve t w).0 ≡ err x))

module _ {P W : Type 0} (rt : Runtime W) (s : OutboxService P W) (p : IdempotencyStorageProvider W)
    (attached : s.idempotency_storage ≡ some p)
    (given_by_caller : s.config.idempotency_strategy ≡ provided) where
  -- A taken token is refused before anything is written.
  refused :
      (t event_type : String) (payload : P) (get_event : Exec W (Option (Event P))) (w : W)
      → (p.try_reserve (new t) w).0 ≡ ok false
      → add_event rt s event_type payload (some t) get_event w
        ≡ (err duplicate_event, (p.try_reserve (new t) w).1)
  unfolding add_event invoke reserve
  refused t event_type payload get_event w h = ground arith

  -- A success had the token reserved.
  reserved :
      (t event_type : String) (payload : P) (get_event : Exec W (Option (Event P))) (w : W)
      → (add_event rt s event_type payload (some t) get_event w).0 ≡ ok tt
      → (p.try_reserve (new t) w).0 ≡ ok true
  unfolding add_event invoke reserve
  reserved t event_type payload get_event w h = ground arith

  -- What follows a reservation.
  accepted :
      (t event_type : String) (payload : P) (get_event : Exec W (Option (Event P))) (w : W)
      → (p.try_reserve (new t) w).0 ≡ ok true
      → let made =
          new_event rt
            (EventType.new event_type)
            (Payload.new payload)
            (some (new t))
            (p.try_reserve (new t) w).1 in
        add_event rt s event_type payload (some t) get_event w ≡ s.writer.insert_event made.0 made.1
  unfolding add_event invoke reserve
  accepted t event_type payload get_event w h = ground arith

  -- A reservation that fails ends the call.
  failed :
      (t event_type : String) (payload : P) (get_event : Exec W (Option (Event P))) (w : W)
      (x : OutboxError)
      → (p.try_reserve (new t) w).0 ≡ err x
      → add_event rt s event_type payload (some t) get_event w
        ≡ (err x, (p.try_reserve (new t) w).1)
  unfolding add_event invoke reserve
  failed t event_type payload get_event w x h = ground arith

  -- Once reserved, a token is taken after the call, however the insert ended.
  taken_after :
      (taken : IdempotencyToken → W → Type 0)
      → IsTaking taken rt s.writer p
      → (t event_type : String) (payload : P) (get_event : Exec W (Option (Event P))) (w : W)
      → (p.try_reserve (new t) w).0 ≡ ok true
      → taken (new t) (add_event rt s event_type payload (some t) get_event w).1
  unfolding new_event
  taken_after taken c t ty x g w fresh = rw (accepted t ty x g w fresh) (
      c.at_insert (new t) _ _ (c.at_clock (new t) _ (c.at_v4 (new t) _ (c.claims (new t) w fresh))))

  -- A token is accepted once: when an `add_event` with a caller's token has returned `Ok`, every
  -- later one with that token, whatever its type and payload and whatever happened in between that
  -- does not give the token back, returns `DuplicateEvent`, and its reservation is the last thing
  -- it does. The provider is attached, keeps its contract, and the strategy is `Provided`.
  pub add_event-DuplicateEvent :
      (taken : IdempotencyToken → W → Type 0)
      → IsReserving taken rt s.writer p
      → (t : String) (between : W → W) → ((v : W) → taken (new t) v → taken (new t) (between v))
      → (event_type event_type' : String) (payload payload' : P)
        (get_event get_event' : Exec W (Option (Event P))) (w : W)
      → let first = add_event rt s event_type payload (some t) get_event w in
        let later = between first.1 in
        first.0 ≡ ok tt
        → add_event rt s event_type' payload' (some t) get_event' later
          ≡ (err duplicate_event, (p.try_reserve (new t) later).1)
  add_event-DuplicateEvent taken c t between keeps ty ty' x x' g g' w h = refused t ty' x' g' _ (
      c.rejects (new t) _ (keeps _ (taken_after taken c.taking t ty x g w (reserved t ty x g w h))))

  -- The same with a provider whose calls may fail: when an `add_event` with a caller's token has
  -- returned `Ok`, every later one with that token, whatever happened in between that does not
  -- give the token back, returns an error, and its reservation is the last thing it does: no
  -- second event is written. The provider is attached, and the strategy is `Provided`.
  pub add_event-once :
      (taken : IdempotencyToken → W → Type 0)
      → IsGuarding taken rt s.writer p
      → (t : String) (between : W → W) → ((v : W) → taken (new t) v → taken (new t) (between v))
      → (event_type event_type' : String) (payload payload' : P)
        (get_event get_event' : Exec W (Option (Event P))) (w : W)
      → let first = add_event rt s event_type payload (some t) get_event w in
        let later = between first.1 in
        first.0 ≡ ok tt
        → (x : OutboxError) × (add_event rt s event_type' payload' (some t) get_event' later
            ≡ (err x, (p.try_reserve (new t) later).1))
  add_event-once taken c t between keeps ty ty' x x' g g' w h =
      elim (c.guards (new t) _
        (keeps _ (taken_after taken c.taking t ty x g w (reserved t ty x g w h)))) [
          | inl q ↦ (duplicate_event, refused t ty' x' g' _ q)
          | inr (e, q) ↦ (e, failed t ty' x' g' _ e q)
        ]

  -- A reservation outlives the insert, however it ends: when the token was reserved, a retry with
  -- it, whatever happened in between that does not give it back, returns `DuplicateEvent`, also
  -- where the writer refused the event and the first call returned the writer's error. The provider
  -- is attached, keeps its contract, and the strategy is `Provided`.
  pub add_event-burns :
      (taken : IdempotencyToken → W → Type 0)
      → IsReserving taken rt s.writer p
      → (t : String) (between : W → W) → ((v : W) → taken (new t) v → taken (new t) (between v))
      → (event_type : String) (payload : P) (get_event : Exec W (Option (Event P))) (w : W)
      → let first = add_event rt s event_type payload (some t) get_event w in
        let later = between first.1 in
        (p.try_reserve (new t) w).0 ≡ ok true
        → (add_event rt s event_type payload (some t) get_event later).0 ≡ err duplicate_event
  add_event-burns taken c t between keeps ty x g w fresh =
      ap (λ (r : Outcome (Unit {0}) × W). r.0)
        (refused t ty x g _
          (c.rejects (new t) _ (keeps _ (taken_after taken c.taking t ty x g w fresh))))

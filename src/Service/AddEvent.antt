-- ===== src/Service/AddEvent.antt =====
-- The vocabulary of what service.rs promises, against the rows that the writer's table holds, and
-- the lemmas about the calls that `add_event` makes before its insert.
use mathlib.Core.Option
use oxide_outbox.Prelude.{
  String, ◌≡◌, refl, inl, inr, Option, none, some, List, ◌∷◌, arith, Bool-cases,
}
use oxide_outbox.Exec.{
  Outcome, ok, err, panicked, Exec, continue, ◌>>=◌, effect, expect, pure, OutboxError,
}
use oxide_outbox.Exec.Laws.{Keeps, bind-Keeps}
use oxide_outbox.Object.IdempotencyToken
use oxide_outbox.Object.IdempotencyToken.{IdempotencyToken}
use oxide_outbox.Object.EventType
use oxide_outbox.Object.Payload
use oxide_outbox.Runtime.{Runtime}
use oxide_outbox.Model.{Event, pending, unix_epoch}
use oxide_outbox.Config.{IdempotencyStrategy, provided, custom, uuid, disabled, invoke}
use oxide_outbox.Traits.{OutboxWriter, IdempotencyStorageProvider}
use oxide_outbox.Service.{reserve}

-- What a writer documents: an insert adds its row or, on an error, nothing.
pub record IsWriter {P W : Type 0} (rows : W → List (Event P)) (writer : OutboxWriter P W)
    : Type 0 where
  pub adds :
      (e : Event P) (w : W)
      → (writer.insert_event e w).0 ≡ ok tt
      → rows (writer.insert_event e w).1 ≡ e ∷ rows w
  pub refuses :
      (e : Event P) (w : W) (x : OutboxError)
      → (writer.insert_event e w).0 ≡ err x
      → rows (writer.insert_event e w).1 ≡ rows w
  pub aborts :
      (e : Event P) (w : W) (x : String)
      → (writer.insert_event e w).0 ≡ panicked x
      → rows (writer.insert_event e w).1 ≡ rows w

-- The token that a strategy gives to an event.
abbrev pub TokenOf :
    {P : Type 0} → IdempotencyStrategy P → Option String → Option IdempotencyToken → Type 0
TokenOf provided given token = token ≡ Option.map IdempotencyToken.new given
TokenOf {P} (custom f) given token = (e : Event P) × (token ≡ some (IdempotencyToken.new (f e)))
TokenOf uuid given token = (t : String) × (token ≡ some (IdempotencyToken.new t))
TokenOf disabled given token = token ≡ none

-- A pending, unlocked event of the given type and payload.
abbrev pub Fresh : {P : Type 0} → String → P → Event P → Type 0
Fresh event_type payload e =
    (e.status ≡ pending)
    × (e.locked_until ≡ unix_epoch)
    × (e.event_type ≡ EventType.new event_type)
    × (e.payload ≡ Payload.new payload)

-- The rows after a call: one new pending, unlocked row on success, and none otherwise.
abbrev pub Recorded :
    {P : Type 0}
    → IdempotencyStrategy P
    → String
    → P
    → Option String
    → List (Event P)
    → Outcome (Unit {0})
    → List (Event P)
    → Type 0
Recorded {P} strategy event_type payload given before (ok _) after =
    (e : Event P) × (after ≡ e ∷ before)
    × Fresh event_type payload e
    × TokenOf strategy given e.idempotency_token
Recorded strategy event_type payload given before (err _) after = after ≡ before
Recorded strategy event_type payload given before (panicked _) after = after ≡ before

custom-TokenOf :
    {P W : Type 0} (f : Event P → String) (context : Outcome (Option (Event P))) (w : W)
    (t : Option String)
    → (continue context
        (λ c. expect "Strategy is Custom, but no Event context provided" c >>= λ event.
          pure (some (f event)))
        w).0
      ≡ ok t
    → (e : Event P) × (Option.map IdempotencyToken.new t ≡ some (IdempotencyToken.new (f e)))
custom-TokenOf f (ok (some e)) w t h = (e, ground arith)
custom-TokenOf f (ok none) w t h = cc
custom-TokenOf f (err x) w t h = cc
custom-TokenOf f (panicked x) w t h = cc

expect-Keeps :
    {A V W : Type 0} (view : W → V) (msg : String) (o : Option A)
    → Keeps view (expect {W = W} msg o)
expect-Keeps view msg none = record { same = λ w. refl }
expect-Keeps view msg (some a) = record { same = λ w. refl }

module _ {P W : Type 0} (rt : Runtime W) (get_event : Exec W (Option (Event P))) where
  -- The token of a successful `invoke` is the strategy's.
  pub invoke-TokenOf :
      (strategy : IdempotencyStrategy P) (given : Option String) (w : W) (t : Option String)
      → (invoke rt strategy given get_event w).0 ≡ ok t
      → TokenOf strategy given (Option.map IdempotencyToken.new t)
  unfolding invoke
  invoke-TokenOf provided given w t h = ground arith
  invoke-TokenOf (custom f) given w t h = custom-TokenOf f (get_event w).0 (get_event w).1 t h
  invoke-TokenOf uuid given w t h = (rt.uuid_text (rt.now_v7 w).0, ground arith)
  invoke-TokenOf disabled given w t h = ground arith

  pub invoke-Keeps :
      {V : Type 0} (view : W → V) (strategy : IdempotencyStrategy P) (given : Option String)
      → Keeps view get_event
      → Keeps view (effect rt.now_v7)
      → Keeps view (invoke rt strategy given get_event)
  unfolding invoke
  invoke-Keeps view provided given g v = record { same = λ w. refl }
  invoke-Keeps view (custom f) given g v =
      bind-Keeps view get_event _ g λ c.
        bind-Keeps view (expect _ c) _ (expect-Keeps view _ c) (λ e. record { same = λ w. refl })
  invoke-Keeps view uuid given g v = record { same = v.same }
  invoke-Keeps view disabled given g v = record { same = λ w. refl }

pub reserve-Keeps :
    {V W : Type 0} (view : W → V) (provider : Option (IdempotencyStorageProvider W))
    → ((p : IdempotencyStorageProvider W)
        → provider ≡ some p
        → (t : IdempotencyToken) → Keeps view (p.try_reserve t))
    → (token : Option IdempotencyToken) → Keeps view (reserve provider token)
unfolding reserve
reserve-Keeps view none k token = record { same = λ w. refl }
reserve-Keeps view (some p) k none = record { same = λ w. refl }
reserve-Keeps view (some p) k (some t) = bind-Keeps view (p.try_reserve t) _ (k p refl t) λ fresh.
    elim (Bool-cases fresh) [
      | inl e ↦ rw e (record { same = λ w. refl })
      | inr e ↦ rw e (record { same = λ w. refl })
    ]

-- The rows are the writer's alone: no other collaborator of the service touches them.
pub record IsApart {P W : Type 0} (rows : W → List (Event P)) (rt : Runtime W)
    (get_event : Exec W (Option (Event P))) (provider : Option (IdempotencyStorageProvider W))
    : Type 0 where
  pub at_v4 : (w : W) → rows (rt.new_v4 w).1 ≡ rows w
  pub at_v7 : (w : W) → rows (rt.now_v7 w).1 ≡ rows w
  pub at_clock : (w : W) → rows (rt.now_utc w).1 ≡ rows w
  pub at_event : (w : W) → rows (get_event w).1 ≡ rows w
  pub at_reserve :
      (p : IdempotencyStorageProvider W)
      → provider ≡ some p
      → (t : IdempotencyToken) (w : W) → rows (p.try_reserve t w).1 ≡ rows w

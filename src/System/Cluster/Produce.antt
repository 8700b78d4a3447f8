-- ===== src/System/Cluster/Produce.antt =====
-- A call of `add_event`, in custody, and the row that it leaves.
use mathlib.Core.Option
use oxide_outbox.Prelude.{
  ℕ, String, ◌≡◌, refl, subst, inl, inr, Option, none, some, ◌∷◌, Bool-cases,
}
use oxide_outbox.Exec.{Outcome, ok, err, panicked, Exec, ◌>>=◌, effect, expect, duplicate_event}
use oxide_outbox.Exec.Laws.{continue_post}
use oxide_outbox.Object.IdempotencyToken
use oxide_outbox.Object.IdempotencyToken.{IdempotencyToken}
use oxide_outbox.Object.EventType
use oxide_outbox.Object.Payload
use oxide_outbox.Model.{Event, new_event}
use oxide_outbox.Config.{IdempotencyStrategy, provided, custom, uuid, disabled, invoke}
use oxide_outbox.Traits.{IdempotencyStorageProvider}
use oxide_outbox.Service.AddEvent.{IsWriter, IsApart, Fresh, TokenOf}
use oxide_outbox.Service.Contract.{add_event-Recorded}
use oxide_outbox.Postgres.Contracts.{postgres_writer-IsWriter}
use oxide_outbox.Service.{reserve, add_event}
use oxide_outbox.Postgres.Sql.{Db}
use oxide_outbox.Postgres.Custody.{InCustody}
use oxide_outbox.Postgres.Custody.Calls.{insert-InCustody}
use oxide_outbox.System.{on_second, guarded, timed}
use oxide_outbox.System.Cluster.{Site, IsLedger, Grows, site_service, site_add_event}
use oxide_outbox.System.Cluster.Advance.{InCustody-mono}

module _ {P X : Type 0} (s : Site P X) (delivered : X → ℕ → Type 0) (l : IsLedger s delivered)
    (k : ℕ) where
  abbrev pub Kept : Db P × X → Db P × X → Type 0
  Kept w v =
      (InCustody (delivered w.1) k w.0 → InCustody (delivered v.1) k v.0)
      × ((j : ℕ) → delivered w.1 j → delivered v.1 j)

  -- An action that keeps the custody of an event, and the deliveries.
  abbrev pub Keeper : {A : Type 0} → Exec (Db P × X) A → Type 0
  Keeper m = (w : Db P × X) → Kept w (m w).1

  bind-Keeper :
      {A B : Type 0} (m : Exec (Db P × X) A) (f : A → Exec (Db P × X) B)
      → Keeper m
      → ((a : A) → Keeper (f a))
      → Keeper (m >>= f)
  bind-Keeper m f km kf w =
      let (now, grown) = km w in
      continue_post (λ _ v. Kept w v) (m w).0 f (m w).1
        (λ a _.
          let (after, more) = kf a (m w).1 in ((λ h. after (now h)), (λ j d. more j (grown j d))))
        (λ _ _. (now, grown)) (λ _ _. (now, grown))

  still : {A : Type 0} (r : Outcome A) → Keeper (λ w. (r, w))
  still r w = ((λ h. h), (λ j d. d))

  grown-Kept :
      (w : Db P × X) (x : X) → ((j : ℕ) → delivered w.1 j → delivered x j) → Kept w (w.0, x)
  grown-Kept w x grows = (InCustody-mono _ _ grows k w.0, grows)

  aside : {A : Type 0} (m : Exec X A) → Grows delivered m → Keeper (on_second m)
  aside m grows w = grown-Kept w (m w.1).1 (λ j. grows w.1 j)

  expect-Keeper : {A : Type 0} (message : String) (o : Option A) → Keeper (expect message o)
  expect-Keeper {A = A} message none = still {A = A} (panicked message)
  expect-Keeper message (some a) = still (ok a)

  invoke-Keeper :
      (strategy : IdempotencyStrategy P) (given : Option String)
      (get_event : Exec X (Option (Event P)))
      → Grows delivered get_event
      → Keeper (invoke (timed s.runtime) strategy given (on_second get_event))
  unfolding invoke
  invoke-Keeper provided given g grows = still (ok given)
  invoke-Keeper (custom f) given g grows =
      bind-Keeper (on_second g) _ (aside g grows)
        λ c. bind-Keeper (expect _ c) _ (expect-Keeper _ c) (λ e. still (ok (some (f e))))
  invoke-Keeper uuid given g grows = λ w. grown-Kept w (s.runtime.now_v7 w.1).1 (λ j. l.by_v7 w.1 j)
  invoke-Keeper disabled given g grows = still {A = Option String} (ok none)

  reserve-Keeper :
      (o : Option (IdempotencyStorageProvider X))
      → ((p : IdempotencyStorageProvider X)
          → o ≡ some p
          → (t : IdempotencyToken) → Grows delivered (p.try_reserve t))
      → (token : Option IdempotencyToken) → Keeper (reserve (guarded o) token)
  unfolding reserve
  reserve-Keeper none c token = still (ok tt)
  reserve-Keeper (some p) c none = still (ok tt)
  reserve-Keeper (some p) c (some t) =
      bind-Keeper (on_second (p.try_reserve t)) _ (aside (p.try_reserve t) (c p refl t)) λ fresh.
        elim (Bool-cases fresh) [
          | inl q ↦ rw q (still (ok tt))
          | inr q ↦ rw q (still {A = Unit {0}} (err duplicate_event))
        ]

  insert-Keeper :
      (ty : EventType.EventType) (payload : Payload.Payload P) (token : Option IdempotencyToken)
      → Keeper (
          effect (new_event (timed s.runtime) ty payload token) >>= λ event.
          (site_service s).writer.insert_event event)
  unfolding new_event
  insert-Keeper ty payload token w =
      let grows : (j : ℕ)
          → delivered w.1 j
          → delivered (s.runtime.now_utc (s.runtime.new_v4 w.1).1).1 j =
        λ j d. l.by_clock _ j (l.by_v4 w.1 j d) in
      (
        (λ h.
            insert-InCustody (delivered (s.runtime.now_utc (s.runtime.new_v4 w.1).1).1) k s.to_value
              _ w.0 (λ q. cc) (InCustody-mono _ _ grows k w.0 h)),
        grows,
      )

  pub add_event-Keeper :
      (event_type : String) (payload : P) (given : Option String)
      (get_event : Exec X (Option (Event P)))
      → Grows delivered get_event
      → Keeper (site_add_event s event_type payload given get_event)
  unfolding add_event
  add_event-Keeper event_type payload given get_event grows =
      bind-Keeper
        (invoke (timed s.runtime) s.config.idempotency_strategy given (on_second get_event)) _
        (invoke-Keeper s.config.idempotency_strategy given get_event grows)
        λ text.
          let token = Option.map IdempotencyToken.new text in
          bind-Keeper (reserve (guarded s.provider) token) _
            (reserve-Keeper s.provider l.by_reserve token)
            λ _. insert-Keeper (EventType.new event_type) (Payload.new payload) token

-- The writer's rows are the table's, and the rest of the site does not touch it.
pub site-IsWriter :
    {P X : Type 0} (s : Site P X) → IsWriter (λ (w : Db P × X). w.0.rows) (site_service s).writer
site-IsWriter s =
    let c = postgres_writer-IsWriter s.to_value in
    record {
      adds = λ e w. c.adds e w.0;
      refuses = λ e w. c.refuses e w.0;
      aborts = λ e w. c.aborts e w.0;
    }

abbrev RowsKept : {P X : Type 0} → Option (IdempotencyStorageProvider (Db P × X)) → Type 0
RowsKept none = Unit
RowsKept {P} {X} (some p) =
    (t : IdempotencyToken) (w : Db P × X) → (p.try_reserve t w).1.0.rows ≡ w.0.rows

pub reserve-aside :
    {P X : Type 0} (o : Option (IdempotencyStorageProvider X))
    (p : IdempotencyStorageProvider (Db P × X))
    → guarded o ≡ some p
    → (t : IdempotencyToken) (w : Db P × X) → (p.try_reserve t w).1.0.rows ≡ w.0.rows
reserve-aside none p q t w = cc
reserve-aside (some p') p q t w = subst RowsKept q (λ t w. refl) t w

pub site-IsApart :
    {P X : Type 0} (s : Site P X) (get_event : Exec X (Option (Event P)))
    → IsApart
        (λ (w : Db P × X). w.0.rows)
        (timed s.runtime)
        (on_second get_event)
        (guarded s.provider)
site-IsApart s get_event = record {
  at_v4 = λ w. refl;
  at_v7 = λ w. refl;
  at_clock = λ w. refl;
  at_event = λ w. refl;
  at_reserve = reserve-aside s.provider;
}

-- An `add_event` that returns `Ok` has left its row.
pub add_event-leaves :
    {P X : Type 0} (s : Site P X) (event_type : String) (payload : P) (given : Option String)
    (get_event : Exec X (Option (Event P))) (w : Db P × X)
    → let done = site_add_event s event_type payload given get_event w in
      done.0 ≡ ok tt
      → (e : Event P) × Fresh event_type payload e
        × TokenOf s.config.idempotency_strategy given e.idempotency_token
        × (done.1.0.rows ≡ e ∷ w.0.rows)
add_event-leaves s event_type payload given get_event w h =
    let made =
      add_event-Recorded (timed s.runtime) (site_service s) (λ v. v.0.rows) event_type payload given
        (on_second get_event) w (site-IsWriter s) (site-IsApart s get_event) in
    let (e, rows, fresh, token) = rw h at made in (e, fresh, token, rows)

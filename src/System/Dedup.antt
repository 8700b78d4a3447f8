-- ===== src/System/Dedup.antt =====
-- Deduplication on PostgreSQL: service.rs over the unique index on `idempotency_token` of
-- outbox-postgres/migrations.
use text.Mathlib.TextPositions.{eq_refl}
use oxide_outbox.Prelude.{
  String, true, ◌≡◌, ◌≢◌, refl, subst, inl, inr, Option, some, List, ◌∷◌, arith, Option-cases,
}
use oxide_outbox.Exec.{Outcome, ok, err, panicked, Exec}
use oxide_outbox.Exec.Laws.{bind_post}
use oxide_outbox.Object.IdempotencyToken.{new}
use oxide_outbox.Object.Payload
use oxide_outbox.Model.{Event, new_event}
use oxide_outbox.Config.{IdempotencyStrategy, provided, invoke}
use oxide_outbox.Postgres.Sql.{Db}
use oxide_outbox.Postgres.Writer.{insert_event, insert_row, token_taken}
use oxide_outbox.Service.{reserve, add_event}
use oxide_outbox.Service.AddEvent.{TokenOf, Recorded, reserve-Keeps}
use oxide_outbox.Service.Contract.{add_event-Recorded}
use oxide_outbox.System.{on_second, guarded, timed}
use oxide_outbox.System.Cluster.{Site, site_service, site_add_event}
use oxide_outbox.System.Cluster.Produce.{
  site-IsWriter, site-IsApart, reserve-aside, add_event-leaves,
}

-- The unique index refuses a second row with a token.
insert_event-refuses :
    {P : Type 0} (to_value : Payload.Payload P → Option String) (e : Event P) (db : Db P)
    → token_taken e.idempotency_token db.rows ≡ true
    → (insert_event to_value e db).0 ≢ ok tt
unfolding insert_event insert_row
insert_event-refuses to_value e db t h = elim (Option-cases (to_value e.payload)) [
  | inl q ↦ ground (arith, q, t, h)
  | inr (m, q) ↦ ground (arith, q, h)
]

not_ok-Recorded :
    {P : Type 0} (strategy : IdempotencyStrategy P) (event_type : String) (payload : P)
    (given : Option String) (before after : List (Event P)) (r : Outcome (Unit {0}))
    → r ≢ ok tt
    → Recorded strategy event_type payload given before r after
    → after ≡ before
not_ok-Recorded strategy ty p given before after (ok u) n h = absurd (n refl)
not_ok-Recorded strategy ty p given before after (err x) n h = h
not_ok-Recorded strategy ty p given before after (panicked m) n h = h

taken-head :
    {P : Type 0} (e : Event P) (t : String) (rows : List (Event P))
    → e.idempotency_token ≡ some (new t)
    → token_taken (some (new t)) (e ∷ rows) ≡ true
taken-head e t rows q = rw q (ground (arith, eq_refl t))

module _ {P X : Type 0} (s : Site P X)
    (given_by_caller : s.config.idempotency_strategy ≡ provided) where
  refused :
      (t event_type : String) (payload : P) (get_event : Exec X (Option (Event P))) (w : Db P × X)
      → token_taken (some (new t)) w.0.rows ≡ true
      → (site_add_event s event_type payload (some t) get_event w).0 ≢ ok tt
  unfolding add_event invoke new_event
  refused t ty p g w taken =
      let kept =
        (reserve-Keeps (λ (v : Db P × X). v.0.rows) (guarded s.provider)
            (λ q e u. record { same = reserve-aside s.provider q e u }) (some (new t))).same
          w in
      rw given_by_caller (
        bind_post (λ r (v : Db P × X). r ≢ ok tt) (reserve (guarded s.provider) (some (new t))) _ w
          (λ _ _. insert_event-refuses s.to_value _ _ (rw kept taken)) (λ x _ q. cc) (λ m _ q. cc))

  -- On PostgreSQL, under the strategy `Provided`, the table itself deduplicates, whatever the
  -- provider is and answers, or if there is none: an `add_event` with a token that returns `Ok` leaves
  -- the token in the table, and while a row with the token stands there, no `add_event` with it
  -- returns `Ok`, and none changes the rows.
  pub add_event-token :
      (t event_type : String) (payload : P) (get_event : Exec X (Option (Event P))) (w : Db P × X)
      → let done = site_add_event s event_type payload (some t) get_event w in
        (done.0 ≡ ok tt → token_taken (some (new t)) done.1.0.rows ≡ true)
        × (token_taken (some (new t)) w.0.rows ≡ true
            → (done.0 ≢ ok tt) × (done.1.0.rows ≡ w.0.rows))
  add_event-token t ty p g w =
      let made =
        add_event-Recorded (timed s.runtime) (site_service s) (λ v. v.0.rows) ty p (some t)
          (on_second g) w (site-IsWriter s) (site-IsApart s g) in
      (
        (λ h.
            let (e, _, token, rows) = add_event-leaves s ty p (some t) g w h in
            rw rows (
              taken-head e t w.0.rows
                (subst (λ k. TokenOf k (some t) e.idempotency_token) given_by_caller token))),
        (λ taken.
            let n = refused t ty p g w taken in (n, not_ok-Recorded _ ty p (some t) _ _ _ n made)),
      )

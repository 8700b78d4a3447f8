-- ===== src/Service/Context.antt =====
-- The caller's closure `get_event` in service.rs and idempotency/strategy.rs.
use oxide_outbox.Prelude.{String, ◌≡◌, refl, Option, none, arith}
use oxide_outbox.Exec.{Exec, ok, panicked}
use oxide_outbox.Runtime.{Runtime}
use oxide_outbox.Model.{Event}
use oxide_outbox.Config.{IdempotencyStrategy, provided, custom, uuid, disabled, invoke}
use oxide_outbox.Service.{OutboxService, add_event}

abbrev pub NeedsContext : {P : Type 0} → IdempotencyStrategy P → Type 0
NeedsContext (custom f) = Unit {0}
NeedsContext _ = ⊥

module _ {P W : Type 0} (rt : Runtime W) where
  invoke-context :
      (strategy : IdempotencyStrategy P) (given : Option String) (g g' : Exec W (Option (Event P)))
      → ¬ NeedsContext strategy
      → invoke rt strategy given g ≡ invoke rt strategy given g'
  unfolding invoke
  invoke-context provided given g g' h = refl
  invoke-context (custom f) given g g' h = absurd (h tt)
  invoke-context uuid given g g' h = refl
  invoke-context disabled given g g' h = refl

  -- Under every strategy but `Custom` the closure is never run: two calls that differ in it alone
  -- are the same action.
  pub add_event-context :
      (s : OutboxService P W) (event_type : String) (payload : P) (given : Option String)
      (g g' : Exec W (Option (Event P)))
      → ¬ NeedsContext s.config.idempotency_strategy
      → add_event rt s event_type payload given g ≡ add_event rt s event_type payload given g'
  unfolding add_event
  add_event-context s event_type payload given g g' h =
      rw (invoke-context s.config.idempotency_strategy given g g' h)

  -- Under `Custom`, a closure that returns no event makes `add_event` panic with the documented
  -- message, in the world that the closure leaves: nothing is reserved or written.
  add_event-panics :
      (s : OutboxService P W) (event_type : String) (payload : P) (given : Option String)
      (get_event : Exec W (Option (Event P))) (f : Event P → String) (w : W)
      → s.config.idempotency_strategy ≡ custom f
      → (get_event w).0 ≡ ok none
      → add_event rt s event_type payload given get_event w
        ≡ (panicked "Strategy is Custom, but no Event context provided", (get_event w).1)
  unfolding add_event invoke
  add_event-panics s event_type payload given get_event f w e h = ground arith

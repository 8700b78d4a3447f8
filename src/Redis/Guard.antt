-- ===== src/Redis/Guard.antt =====
-- `RedisProvider` of outbox-redis/src/lib.rs behind the interface that service.rs deduplicates with.
use oxide_outbox.Prelude.{String, ◌≡◌, Option, some}
use oxide_outbox.Exec.{OutboxError, ok, err, Exec}
use oxide_outbox.Object.IdempotencyToken.{IdempotencyToken, new}
use oxide_outbox.Runtime.{Runtime}
use oxide_outbox.Model.{Event}
use oxide_outbox.Traits.{OutboxWriter}
use oxide_outbox.Config.{provided}
use oxide_outbox.Service.{OutboxService, add_event}
use oxide_outbox.Service.Dedup.{IsGuarding, add_event-once}
use oxide_outbox.Redis.{RedisProvider, try_reserve, redis_provider}
use oxide_outbox.Redis.Reserve.{IsKeySpace, redis_key, try_reserve-holds}

-- The clock, the source of identifiers and the writer touch no key.
pub record IsKeyless {P W : Type 0} (held : String → W → Type 0) (rt : Runtime W)
    (writer : OutboxWriter P W) : Type 0 where
  pub at_v4 : (k : String) (w : W) → held k w → held k (rt.new_v4 w).1
  pub at_clock : (k : String) (w : W) → held k w → held k (rt.now_utc w).1
  pub at_insert : (k : String) (e : Event P) (w : W) → held k w → held k (writer.insert_event e w).1

-- A token is taken while the server holds its key.
abbrev KeyHeld :
    {W : Type 0} → RedisProvider W → (String → W → Type 0) → IdempotencyToken → W → Type 0
KeyHeld p held t w = held (redis_key p t) w

module _ {P W : Type 0} (p : RedisProvider W) (held : String → W → Type 0)
    (c : IsKeySpace p held) where
  -- The Redis provider is one that deduplicates, with or without the local cache.
  redis_provider-IsGuarding :
      (rt : Runtime W) (writer : OutboxWriter P W)
      → IsKeyless held rt writer
      → IsGuarding (KeyHeld p held) rt writer (redis_provider p)
  redis_provider-IsGuarding rt writer k = record {
    taking = record {
      claims = λ t w h. (try_reserve-holds p held t w c).0 h;
      at_v4 = λ t w h. k.at_v4 (redis_key p t) w h;
      at_clock = λ t w h. k.at_clock (redis_key p t) w h;
      at_insert = λ t e w h. k.at_insert (redis_key p t) e w h;
    };
    guards = λ t w h. (try_reserve-holds p held t w c).1 h;
  }

  -- Deduplication over Redis: when an `add_event` with a caller's token has returned `Ok`, every later
  -- one with that token, whatever its type and payload and whatever happened in between, returns an
  -- error for as long as the server holds the key of the token, and its reservation is the last
  -- thing it does: no second event is written. The provider is Redis, with or without the local
  -- cache, the strategy is `Provided`, the server keeps the documented behaviour of its command,
  -- and the other collaborators touch no key.
  pub redis_add_event-once :
      (rt : Runtime W) (s : OutboxService P W)
      → s.idempotency_storage ≡ some (redis_provider p)
      → s.config.idempotency_strategy ≡ provided
      → IsKeyless held rt s.writer
      → (t : String) (between : W → W)
      → ((v : W) → held (redis_key p (new t)) v → held (redis_key p (new t)) (between v))
      → (event_type event_type' : String) (payload payload' : P)
        (get_event get_event' : Exec W (Option (Event P))) (w : W)
      → let first = add_event rt s event_type payload (some t) get_event w in
        let later = between first.1 in
        first.0 ≡ ok tt
        → (x : OutboxError) × (add_event rt s event_type' payload' (some t) get_event' later
            ≡ (err x, (try_reserve p (new t) later).1))
  redis_add_event-once rt s attached given k t between keeps =
      add_event-once rt s (redis_provider p) attached given (KeyHeld p held)
        (redis_provider-IsGuarding rt s.writer k) t between keeps

-- ===== src/Redis.antt =====
-- outbox-redis/src: lib.rs, config.rs and dlq.rs. The server's commands and the `moka` cache are
-- parameters.
pub mod Reserve
pub mod Drain
pub mod Counts
pub mod Replay
pub mod Guard
use mathlib.Core.Option
use Prim.Native.String.{◌++◌}
use oxide_outbox.Prelude.{
  ℕ, String, Bool, true, false, Option, none, some, List, [], ◌∷◌, is_empty, ltb, if◌then◌else◌,
}
use oxide_outbox.Exec.{
  Outcome, ok, err, panicked, Exec, infrastructure_error, pure, raise, effect, ◌>>=◌, ◌>>◌,
}
use oxide_outbox.Object.EventId.{EventId, load, as_uuid}
use oxide_outbox.Object.IdempotencyToken.{IdempotencyToken, as_str}
use oxide_outbox.Model.{DlqEntry, new_entry}
use oxide_outbox.Traits.{IdempotencyStorageProvider, DlqHeap}

pub record RedisTokenConfig : Type 0 where
  pub ttl : ℕ  -- in seconds, as `ttl.as_secs()` reads it
  pub key_prefix : String
  pub local_cache_capacity : ℕ  -- u64

-- `RedisTokenConfig::default`
abbrev pub default_token_config : RedisTokenConfig
default_token_config = record { ttl = 86400; key_prefix = "i_token"; local_cache_capacity = 10000 }

-- The server, over a connection that may fail a call before it is made.
pub record Redis (W : Type 0) : Type 0 where
  -- The message of the `RedisError` of the next call, if it fails.
  pub fault : W → Option String × W
  -- `SET key 1 NX EX ttl`: whether the key was set.
  pub set_nx_ex : String → ℕ → W → Bool × W
  -- `ZINCRBY key 1 member`
  pub zincrby : String → String → W → W
  -- `ZREM key member`
  pub zrem : String → String → W → W
  -- `ZRANGEBYSCORE key min +inf WITHSCORES`
  pub zrangebyscore : String → ℕ → W → List String × W
  -- `ZREMRANGEBYSCORE key min +inf`
  pub zremrangebyscore : String → ℕ → W → W

-- `moka::future::Cache<String, ()>`
pub record LocalCache (W : Type 0) : Type 0 where
  pub contains_key : String → W → Bool
  pub insert : String → W → W

-- An `f64`: its sign (`true` below zero), the whole part of its magnitude, and the rest of it in units
-- of 2 ^ -1074.
pub data F64 : Type 0 where
  not_a_number : F64
  infinite : Bool → F64
  finite : Bool → ℕ → ℕ → F64

-- `score.max(0.0)`: the maximum with a NaN is the other operand.
abbrev pub max_zero : F64 → F64
max_zero not_a_number = finite false 0 0
max_zero (infinite true) = finite false 0 0
max_zero (infinite false) = infinite false
max_zero (finite true whole fraction) = finite false 0 0
max_zero (finite false whole fraction) = finite false whole fraction

-- `… as u32`: the cast drops the fraction, stops at both ends of the type, and takes a NaN to 0.
abbrev pub as_u32 : F64 → ℕ
as_u32 not_a_number = 0
as_u32 (infinite true) = 0
as_u32 (infinite false) = 4294967295
as_u32 (finite true whole fraction) = 0
as_u32 (finite false whole fraction) = if ltb whole 4294967296 then whole else 4294967295

-- What a parser gives: a value, or the text of its error.
pub data Parsed (A : Type 0) : Type 0 where
  value : A → Parsed A
  invalid : String → Parsed A

-- `Uuid::to_string`, `Uuid::parse_str` and `str::parse::<f64>`.
pub record Codecs : Type 0 where
  pub uuid_text : ℕ → String
  pub parse_uuid : String → Parsed ℕ
  pub parse_f64 : String → Parsed F64

-- `RedisProvider`; the cache is there under the feature `moka`.
pub record RedisProvider (W : Type 0) : Type 0 where
  pub connection : Redis W
  pub local_cache : Option (LocalCache W)
  pub config : RedisTokenConfig

module _ {W : Type 0} where
  -- `query_async(…).await.map_err(…)?`
  abbrev pub answered : {A : Type 0} → Option String → (W → A × W) → Exec W A
  answered none run w = let (a, w') = run w in (ok a, w')
  answered (some message) run w = (err (infrastructure_error message), w)

  unfoldable pub call : {A : Type 0} → Redis W → (W → A × W) → Exec W A
  call c run w = let (failed, w') = c.fault w in answered failed run w'

  abbrev pub is_cached : Option (LocalCache W) → String → W → Bool
  is_cached none token w = false
  is_cached (some cache) token w = cache.contains_key token w

  abbrev pub remember : Option (LocalCache W) → String → W → W
  remember none token w = w
  remember (some cache) token w = cache.insert token w

  -- `try_reserve` behind the local cache.
  unfoldable pub reserve_remotely : RedisProvider W → String → Exec W Bool
  unfolding call
  reserve_remotely p token = do
    is_new ←
        call p.connection
          (p.connection.set_nx_ex (p.config.key_prefix ++ (":" ++ token)) p.config.ttl)
    if is_new then effect (λ w. (true, remember p.local_cache token w)) else pure false

  unfoldable pub try_reserve : RedisProvider W → IdempotencyToken → Exec W Bool
  unfolding reserve_remotely
  try_reserve p token w =
      if is_cached p.local_cache (as_str token) w
      then (ok false, w)
      else reserve_remotely p (as_str token) w

  abbrev pub redis_provider : RedisProvider W → IdempotencyStorageProvider W
  redis_provider p = record { try_reserve = try_reserve p }

  abbrev pub dlq_key : RedisProvider W → String
  dlq_key p = p.config.key_prefix ++ (":" ++ "dlq")

  abbrev pub record_failure : Codecs → RedisProvider W → EventId → Exec W (Unit {0})
  record_failure k p id =
      call p.connection (λ w. (tt, p.connection.zincrby (dlq_key p) (k.uuid_text (as_uuid id)) w))

  abbrev pub record_success : Codecs → RedisProvider W → EventId → Exec W (Unit {0})
  record_success k p id =
      call p.connection (λ w. (tt, p.connection.zrem (dlq_key p) (k.uuid_text (as_uuid id)) w))

  -- The Lua script: both commands in one step of the server.
  pub drain_script : RedisProvider W → ℕ → W → List String × W
  drain_script p threshold w =
      let (items, w') = p.connection.zrangebyscore (dlq_key p) threshold w in
      if is_empty items
      then (items, w')
      else (items, p.connection.zremrangebyscore (dlq_key p) threshold w')

  -- `….map_err(|e| OutboxError::InfrastructureError(format!(…)))?`
  abbrev pub parsed : {A : Type 0} → String → Parsed A → Exec W A
  parsed context (value n) = pure n
  parsed context (invalid e) = raise (infrastructure_error (context ++ e))

  -- The loop over `raw.chunks_exact(2)`; a last element without a partner is passed over.
  pub entries_of : Codecs → List String → Exec W (List DlqEntry)
  entries_of k [] = pure []
  entries_of k (id ∷ []) = pure []
  entries_of k (id ∷ text ∷ raw) = do
    uuid ← parsed ("Invalid UUID '" ++ (id ++ "' in DLQ zset: ")) (k.parse_uuid id)
    score ← parsed ("Invalid score '" ++ (text ++ "' in DLQ zset: ")) (k.parse_f64 text)
    let count = as_u32 (max_zero score)
    rest ← entries_of k raw
    pure (new_entry (load uuid) count none ∷ rest)

  unfoldable pub drain_exceeded : Codecs → RedisProvider W → ℕ → Exec W (List DlqEntry)
  unfolding drain_script call entries_of
  drain_exceeded k p threshold = do
    raw ← call p.connection (drain_script p threshold)
    entries_of k raw

  abbrev pub redis_heap : Codecs → RedisProvider W → DlqHeap W
  redis_heap k p = record {
    record_failure = record_failure k p;
    record_success = record_success k p;
    drain_exceeded = drain_exceeded k p;
  }

-- `redis::Client::open`: the text of its error, if the URL is invalid;
-- `get_multiplexed_async_connection`: the connection, if there is one; and under the feature `moka`
-- `Cache::builder().time_to_live(…).build()`.
pub record RedisClient (W : Type 0) : Type 0 where
  pub open_client : String → Option String
  pub connect : String → W → Option (Redis W) × W
  pub build_cache : Option (ℕ → LocalCache W)

module _ {W : Type 0} where
  abbrev pub connected :
      RedisClient W → RedisTokenConfig → Option (Redis W) → Exec W (RedisProvider W)
  connected client config none = raise (infrastructure_error "Redis connection failed")
  connected client config (some connection) = pure (record {
    connection = connection;
    local_cache = Option.map (λ build. build config.ttl) client.build_cache;
    config = config;
  })

  abbrev pub opened : Option String → Exec W (Unit {0})
  opened none = pure tt
  opened (some message) = raise (infrastructure_error ("Invalid Redis URL: " ++ message))

  -- `RedisProvider::new`
  abbrev pub new : RedisClient W → String → RedisTokenConfig → Exec W (RedisProvider W)
  new client connection_info config =
      opened (client.open_client connection_info)
      >> (effect (client.connect connection_info) >>= connected client config)

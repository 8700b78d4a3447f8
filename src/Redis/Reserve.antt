-- ===== src/Redis/Reserve.antt =====
-- `try_reserve` in outbox-redis/src/lib.rs as a provider of tokens.
use Prim.Native.String.{◌++◌}
use oxide_outbox.Prelude.{
  String, true, false, ◌≡◌, refl, ◌⊎◌, inl, inr, arith, Bool-cases, Option-cases,
}
use oxide_outbox.Exec.{OutboxError, ok, err, infrastructure_error}
use oxide_outbox.Object.IdempotencyToken.{IdempotencyToken, as_str}
use oxide_outbox.Redis.{RedisProvider, call, is_cached, remember, reserve_remotely, try_reserve}

-- `SET … NX EX`: a key that was set is held (until it expires), and a held key is not set again.
-- A failed call and the local cache take no key away.
pub record IsKeySpace {W : Type 0} (p : RedisProvider W) (held : String → W → Type 0) : Type 0 where
  pub sets :
      (k : String) (w : W)
      → (p.connection.set_nx_ex k p.config.ttl w).0 ≡ true
      → held k (p.connection.set_nx_ex k p.config.ttl w).1
  pub refuses :
      (k : String) (w : W) → held k w → (p.connection.set_nx_ex k p.config.ttl w).0 ≡ false
  pub at_fault : (k : String) (w : W) → held k w → held k (p.connection.fault w).1
  pub at_remember : (k token : String) (w : W) → held k w → held k (remember p.local_cache token w)

module _ {W : Type 0} (p : RedisProvider W) where
  abbrev pub redis_key : IdempotencyToken → String
  redis_key t = p.config.key_prefix ++ (":" ++ as_str t)

  remote-claims :
      (held : String → W → Type 0) (t : IdempotencyToken) (w : W)
      → IsKeySpace p held
      → (reserve_remotely p (as_str t) w).0 ≡ ok true
      → held (redis_key t) (reserve_remotely p (as_str t) w).1
  unfolding reserve_remotely call
  remote-claims held t w c h = elim (Option-cases (p.connection.fault w).0) [
    | inl q ↦
        let w1 = (p.connection.fault w).1 in
        elim (Bool-cases (p.connection.set_nx_ex (redis_key t) p.config.ttl w1).0) [
          | inl set ↦
              rw (q, set) (c.at_remember (redis_key t) (as_str t) _ (c.sets (redis_key t) w1 set))
          | inr kept ↦ absurd (ground (arith, q, kept))
        ]
    | inr (m, q) ↦ absurd (ground (arith, q))
  ]

  remote-guards :
      (held : String → W → Type 0) (t : IdempotencyToken) (w : W)
      → IsKeySpace p held
      → held (redis_key t) w
      → ((reserve_remotely p (as_str t) w).0 ≡ ok false)
        ⊎ ((x : OutboxError) × ((reserve_remotely p (as_str t) w).0 ≡ err x))
  unfolding reserve_remotely call
  remote-guards held t w c h = elim (Option-cases (p.connection.fault w).0) [
    | inl q ↦ inl (
        rw (q, c.refuses (redis_key t) (p.connection.fault w).1 (c.at_fault (redis_key t) w h))
          refl)
    | inr (m, q) ↦ inr (infrastructure_error m, rw q refl)
  ]

  -- A reservation that succeeds holds the key of the token, and a token whose key is held is not
  -- reserved again: the local cache or the server rejects it, or the call returns an error. The
  -- server keeps the documented behaviour of its command.
  pub try_reserve-holds :
      (held : String → W → Type 0) (t : IdempotencyToken) (w : W)
      → IsKeySpace p held
      → ((try_reserve p t w).0 ≡ ok true → held (redis_key t) (try_reserve p t w).1)
        × (held (redis_key t) w
            → ((try_reserve p t w).0 ≡ ok false)
              ⊎ ((x : OutboxError) × ((try_reserve p t w).0 ≡ err x)))
  unfolding try_reserve
  try_reserve-holds held t w c = elim (Bool-cases (is_cached p.local_cache (as_str t) w)) [
    | inl hit ↦ rw hit ((λ h. cc), (λ h. inl refl))
    | inr miss ↦ rw miss (remote-claims held t w c, remote-guards held t w c)
  ]

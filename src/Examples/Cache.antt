-- ===== src/Examples/Cache.antt =====
-- A small Redis server for outbox-redis/src: its keys, one sorted set, and the faults of the next
-- calls. Numbers are written in strokes.
use text.Mathlib.Text.{◌==◌}
use text.Mathlib.TextPositions.{eq_refl}
use oxide_outbox.Prelude.{
  ℕ, zero, suc, String, Bool, true, false, not, ◌||◌, ◌≡◌, refl, ap, Option, none, some, List, [],
  ◌∷◌, keep, leb, length, arith, if◌then◌else◌,
}
use oxide_outbox.Runtime.{Runtime}
use oxide_outbox.Model.{Event, new_event}
use oxide_outbox.Config.{default_config, provided, invoke}
use oxide_outbox.Traits.{OutboxWriter}
use oxide_outbox.Service.{OutboxService, with_idempotency, reserve, add_event}
use oxide_outbox.Exec.{pure, OutboxError, ok, err}
use oxide_outbox.Object.IdempotencyToken.{IdempotencyToken}
use oxide_outbox.Object.IdempotencyToken
use oxide_outbox.Redis.{
  Redis, RedisProvider, call, reserve_remotely, redis_provider, Codecs, value, finite,
  default_token_config, try_reserve,
}
use oxide_outbox.Redis.Reserve.{IsKeySpace}
use oxide_outbox.Redis.Guard.{IsKeyless, redis_add_event-once}
use oxide_outbox.Redis.Drain.{Scores, with_scores, IsCodec, IsSortedSet}

record Server : Type 0 where
  keys : List String
  set : Scores
  faults : List (Option String)
  rows : List (Event ℕ)

abbrev pub strokes : ℕ → String
strokes zero = ""
strokes (suc n) = String.◌∷◌ "x" (strokes n)

abbrev pub count : String → ℕ
count String.[] = 0
count (String.◌∷◌ c s) = suc (count s)

pub count-strokes : (n : ℕ) → count (strokes n) ≡ n
count-strokes zero = refl
count-strokes (suc n) = ap suc (count-strokes n)

abbrev pub codecs : Codecs
codecs = record {
  uuid_text = strokes;
  parse_uuid = λ s. value (count s);
  parse_f64 = λ s. value (finite false (count s) 0);
}

pub codecs-IsCodec : IsCodec codecs strokes
codecs-IsCodec = record {
  uuids = λ u. ap value (count-strokes u);
  scores = λ n. ap (λ c. value (finite false c 0)) (count-strokes n);
}

abbrev next_fault : List (Option String) → Option String
next_fault [] = none
next_fault (f ∷ fs) = f

abbrev other_faults : List (Option String) → List (Option String)
other_faults [] = []
other_faults (f ∷ fs) = fs

abbrev has : List String → String → Bool
has [] t = false
has (s ∷ ss) t = (s == t) || has ss t

abbrev redis : Redis Server
redis = record {
  fault = λ w. (next_fault w.faults, record w { faults = other_faults w.faults });
  set_nx_ex =
      λ k ttl w. if has w.keys k then (false, w) else (true, record w { keys = k ∷ w.keys });
  zincrby = λ k m w. w;
  zrem = λ k m w. w;
  zrangebyscore = λ k min w. (with_scores strokes strokes (keep (λ m. leb min m.1) w.set), w);
  zremrangebyscore = λ k min w. record w { set = keep (λ m. not (leb min m.1)) w.set };
}

abbrev provider : RedisProvider Server
provider = record { connection = redis; local_cache = none; config = default_token_config }

abbrev Held : String → Server → Type 0
Held k w = has w.keys k ≡ true

provider-IsKeySpace : IsKeySpace provider Held
provider-IsKeySpace = record {
  sets = λ k w h. ground (arith, eq_refl k);
  refuses = λ k w h. ground arith;
  at_fault = λ k w h. h;
  at_remember = λ k t w h. h;
}

provider-IsSortedSet : IsSortedSet provider codecs strokes (λ (w : Server). w.set)
provider-IsSortedSet = record {
  ranges = λ min w. refl;
  range_keeps = λ min w. refl;
  removes = λ min w. refl;
  fault_keeps = λ w. refl;
}

abbrev start : Server
start = record {
  keys = "i_token:t1" ∷ [];
  set = (7, 10) ∷ (8, 2) ∷ [];
  faults = none ∷ some "timeout" ∷ [];
  rows = [];
}

abbrev runtime : Runtime Server
runtime = record {
  new_v4 = λ w. (length w.rows, w);
  now_v7 = λ w. (length w.rows, w);
  uuid_text = λ n. "id";
  now_utc = λ w. (1000000000000, w);
}

abbrev writer : OutboxWriter ℕ Server
writer = record { insert_event = λ e w. (ok tt, record w { rows = e ∷ w.rows }) }

writer-IsKeyless : IsKeyless Held runtime writer
writer-IsKeyless = record { at_v4 = λ k w h. h; at_clock = λ k w h. h; at_insert = λ k e w h. h }

abbrev service : OutboxService ℕ Server
service =
    with_idempotency writer (record default_config { idempotency_strategy = provided })
      (redis_provider provider)

abbrev after_first : Server
after_first = (add_event runtime service "paid" 7 (some "t2") (pure none) start).1

redis_add_event-once_example :
    (x : OutboxError) × (add_event runtime service "void" 8 (some "t2") (pure none) after_first
      ≡ (err x, (try_reserve provider (IdempotencyToken.new "t2") after_first).1))
unfolding add_event invoke reserve call new_event try_reserve reserve_remotely
redis_add_event-once_example =
    redis_add_event-once provider Held provider-IsKeySpace runtime service refl refl
      writer-IsKeyless "t2" (λ w. w) (λ v h. h) "paid" "void" 7 8 (pure none) (pure none) start refl

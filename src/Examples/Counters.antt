-- ===== src/Examples/Counters.antt =====
-- A Redis server that holds one sorted set, for outbox-redis/src/dlq.rs.
use oxide_outbox.Prelude.{
  ℕ, suc, Bool, true, false, not, ◌≡◌, refl, ap, none, List, [], ◌∷◌, map, keep, contains, leb, ltb,
  ◌==◌, arith, if◌then◌else◌, In_of_map,
}
use oxide_outbox.Object.EventId.{load}
use oxide_outbox.Heap.{IsDrained, IsHeap, after_failure, after_success}
use oxide_outbox.Heap.Replay.{Op, fail, succeed, drain, replay, took_effect}
use oxide_outbox.Postgres.Sql.{any_duplicate}
use oxide_outbox.Redis.{Redis, RedisProvider, default_token_config, redis_heap, drain_exceeded}
use oxide_outbox.Redis.Drain.{Scores, with_scores, entry, IsSortedSet}
use oxide_outbox.Redis.Counts.{score, members, last_exact, IsCounting, redis_heap-IsHeap}
use oxide_outbox.Redis.Replay.{drain_exceeded-replays}
use oxide_outbox.Examples.Cache.{strokes, count, count-strokes, codecs, codecs-IsCodec}

-- A member and its score less 1.
pub record Server : Type 0 where
  pub set : Scores
  pub distinct : any_duplicate (members set) ≡ false

abbrev scored : ℕ × ℕ → ℕ × ℕ
scored (u, n) = (u, suc n)

abbrev pub scores : Server → Scores
scores w = map scored w.set

abbrev next : ℕ → ℕ
next n = if ltb (suc n) last_exact then suc n else n

abbrev bump : ℕ → Scores → Scores
bump id [] = (id, 0) ∷ []
bump id ((v, n) ∷ ms) = if id == v then (v, next n) ∷ ms else (v, n) ∷ bump id ms

bump-contains :
    (id u : ℕ) (ms : Scores)
    → contains (members (bump id ms)) u ≡ (if id == u then true else contains (members ms) u)
bump-contains id u [] = ground arith
bump-contains id u ((v, n) ∷ ms) = ground (arith, bump-contains id u ms)

pub bump-distinct :
    (id : ℕ) (ms : Scores)
    → any_duplicate (members ms) ≡ false
    → any_duplicate (members (bump id ms)) ≡ false
bump-distinct id [] h = refl
bump-distinct id ((v, n) ∷ ms) h = ground (arith, bump-distinct id ms, bump-contains id v ms)

bump-score :
    (id u : ℕ) (ms : Scores)
    → score (map scored (bump id ms)) u ≡ after_failure last_exact id u (score (map scored ms) u)
bump-score id u [] = ground arith
bump-score id u ((v, n) ∷ ms) = ground (arith, bump-score id u ms)

drop-contains :
    (q : ℕ × ℕ → Bool) (u : ℕ) (ms : Scores)
    → contains (members ms) u ≡ false
    → contains (members (keep q ms)) u ≡ false
drop-contains q u [] h = refl
drop-contains q u (m ∷ ms) h = ground (arith, drop-contains q u ms)

pub drop-distinct :
    (q : ℕ × ℕ → Bool) (ms : Scores)
    → any_duplicate (members ms) ≡ false
    → any_duplicate (members (keep q ms)) ≡ false
drop-distinct q [] h = refl
drop-distinct q (m ∷ ms) h = ground (arith, drop-distinct q ms, drop-contains q m.0 ms)

drop-score :
    (id u : ℕ) (ms : Scores)
    → score (map scored (keep (λ m. not (m.0 == id)) ms)) u
      ≡ after_success id u (score (map scored ms) u)
drop-score id u [] = ground arith
drop-score id u ((v, n) ∷ ms) = ground (arith, drop-score id u ms)

keep-scored :
    (q : ℕ → Bool) (ms : Scores)
    → map scored (keep (λ m. q (suc m.1)) ms) ≡ keep (λ m. q m.1) (map scored ms)
keep-scored q [] = refl
keep-scored q ((v, n) ∷ ms) = ground (arith, keep-scored q ms)

members-scored : (ms : Scores) → members (map scored ms) ≡ members ms
members-scored [] = refl
members-scored (m ∷ ms) = ap (λ us. m.0 ∷ us) (members-scored ms)

abbrev only : (ℕ × ℕ → Bool) → Server → Server
only q w = record { set = keep q w.set; distinct = drop-distinct q w.set w.distinct }

abbrev redis : Redis Server
redis = record {
  fault = λ w. (none, w);
  set_nx_ex = λ k ttl w. (true, w);
  zincrby = λ k m w. record {
    set = bump (count m) w.set;
    distinct = bump-distinct (count m) w.set w.distinct;
  };
  zrem = λ k m. only (λ x. not (x.0 == count m));
  zrangebyscore = λ k min w. (with_scores strokes strokes (keep (λ m. leb min m.1) (scores w)), w);
  zremrangebyscore = λ k min. only (λ x. not (leb min (suc x.1)));
}

abbrev pub provider : RedisProvider Server
provider = record { connection = redis; local_cache = none; config = default_token_config }

pub provider-IsSortedSet : IsSortedSet provider codecs strokes scores
provider-IsSortedSet = record {
  ranges = λ min w. refl;
  range_keeps = λ min w. refl;
  removes = λ min w. keep-scored (λ c. not (leb min c)) w.set;
  fault_keeps = λ w. refl;
}

pub provider-IsCounting : IsCounting provider codecs scores
provider-IsCounting = record {
  distinct = λ w. rw (members-scored w.set) w.distinct;
  positive = λ w m i. let (x, j, q) = In_of_map scored m w.set i in rw q (omega arith);
  increments = λ id u w. rw (count-strokes id) (bump-score id u w.set);
  forgets = λ id u w. rw (count-strokes id) (drop-score id u w.set);
}

redis_heap-IsHeap_example :
    IsHeap last_exact (λ (w : Server). score (scores w)) (redis_heap codecs provider)
redis_heap-IsHeap_example =
    redis_heap-IsHeap provider codecs strokes scores codecs-IsCodec provider-IsSortedSet
      provider-IsCounting

abbrev pub empty : Server
empty = record { set = []; distinct = refl }

-- Event 1 fails twice, event 2 fails, succeeds and fails again.
abbrev calls : List Op
calls =
    fail (load 1) ∷ fail (load 2) ∷ fail (load 1) ∷ succeed (load 2) ∷ fail (load 2) ∷ drain 9 ∷ []

drain_exceeded-replays_example :
    IsDrained 2
      (λ u. replay last_exact (took_effect (redis_heap codecs provider) calls empty) u 0)
      (entry (1, 2) ∷ [])
unfolding drain_exceeded
drain_exceeded-replays_example =
    drain_exceeded-replays provider codecs strokes scores codecs-IsCodec provider-IsSortedSet
      provider-IsCounting calls empty 2 (entry (1, 2) ∷ []) (λ u. refl) refl

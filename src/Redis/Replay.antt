-- ===== src/Redis/Replay.antt =====
-- What the heap of outbox-redis/src/dlq.rs returns after a sequence of calls.
use oxide_outbox.Prelude.{ℕ, String, ◌≡◌, ◌∙◌, ap, subst, List, fun_ext}
use oxide_outbox.Exec.{ok}
use oxide_outbox.Model.{DlqEntry}
use oxide_outbox.Heap.{Counts, IsDrained}
use oxide_outbox.Heap.Replay.{Op, replay, run, took_effect, run-replays}
use oxide_outbox.Redis.{RedisProvider, Codecs, redis_heap, drain_exceeded}
use oxide_outbox.Redis.Drain.{Scores, IsCodec, IsSortedSet}
use oxide_outbox.Redis.Counts.{score, last_exact, IsCounting, redis_heap-IsHeap}

IsDrained-along :
    (threshold : ℕ) (before after : Counts) (entries : List DlqEntry)
    → ((u : ℕ) → before u ≡ after u)
    → IsDrained threshold before entries
    → IsDrained threshold after entries
IsDrained-along threshold before after entries same d =
    subst (λ counts. IsDrained threshold counts entries) (fun_ext same) d

-- A drain returns the repeat offenders: after any calls of the worker and of the dead-letter task on
-- a heap that tracked nothing, a drain that returns `Ok` gives one entry for each event whose
-- count has reached the threshold, and no other, where the count replays the calls that returned
-- `Ok`: one more for each failure, up to 2 ^ 53, and none again behind a success of that event and
-- behind a drain that took it. The server keeps the documented behaviour of its commands, and the
-- parsers read what the printers write.
pub drain_exceeded-replays :
    {W : Type 0} (p : RedisProvider W) (k : Codecs) (score_text : ℕ → String) (scores : W → Scores)
    → IsCodec k score_text
    → IsSortedSet p k score_text scores
    → IsCounting p k scores
    → (os : List Op) (w : W) (threshold : ℕ) (entries : List DlqEntry)
    → ((u : ℕ) → score (scores w) u ≡ 0)
    → (drain_exceeded k p threshold (run (redis_heap k p) os w)).0 ≡ ok entries
    → IsDrained threshold (λ u. replay last_exact (took_effect (redis_heap k p) os w) u 0) entries
drain_exceeded-replays {W = W} p k score_text scores codec set counting os w threshold entries
      none_yet r =
    let heap = redis_heap-IsHeap p k score_text scores codec set counting in
    let counts = λ (v : W). score (scores v) in
    let done = took_effect (redis_heap k p) os w in
    IsDrained-along threshold (counts (run (redis_heap k p) os w)) (λ u. replay last_exact done u 0)
      entries
      (λ u.
        run-replays last_exact counts (redis_heap k p) heap os w u
        ∙ ap (replay last_exact done u) (none_yet u))
      (heap.returns threshold _ entries r)

-- ===== src/Redis/Drain.antt =====
-- The heap of outbox-redis/src/dlq.rs against its sorted set.
use oxide_outbox.Prelude.{
  ℕ, String, Bool, true, false, not, ◌≡◌, refl, sym, ◌∙◌, ap, ◌⊎◌, inl, inr, none, List, [], ◌∷◌,
  map, keep, leb, is_empty, arith, Option-cases, Bool-cases,
}
use oxide_outbox.Exec.{ok, err, infrastructure_error}
use oxide_outbox.Object.EventId.{load}
use oxide_outbox.Model.{DlqEntry, new_entry}
use oxide_outbox.Heap.{to_u32}
use oxide_outbox.Redis.{
  RedisProvider, Codecs, value, finite, max_zero, as_u32, call, dlq_key, drain_script, entries_of,
  drain_exceeded,
}

-- A member of the sorted set: the number of a uuid, and its score, a whole number of failures.
abbrev pub Scores : Type 0
Scores = List (ℕ × ℕ)

-- The reply `WITHSCORES`: each member, then its score.
abbrev pub with_scores : (ℕ → String) → (ℕ → String) → Scores → List String
with_scores uuid_text score_text [] = []
with_scores uuid_text score_text ((u, n) ∷ ms) =
    uuid_text u ∷ score_text n ∷ with_scores uuid_text score_text ms

abbrev pub entry : ℕ × ℕ → DlqEntry
entry (u, n) = new_entry (load u) (to_u32 n) none

-- The parsers read back what the printers wrote: a uuid, and a score that is a whole number.
pub record IsCodec (k : Codecs) (score_text : ℕ → String) : Type 0 where
  pub uuids : (u : ℕ) → k.parse_uuid (k.uuid_text u) ≡ value u
  pub scores : (n : ℕ) → k.parse_f64 (score_text n) ≡ value (finite false n 0)

-- What the code makes of a score that is a whole number.
as_u32-max_zero : (n : ℕ) → as_u32 (max_zero (finite false n 0)) ≡ to_u32 n
as_u32-max_zero n = ground arith

entries_of-with_scores :
    {W : Type 0} (k : Codecs) (score_text : ℕ → String)
    → IsCodec k score_text
    → (ms : Scores) (w : W)
    → entries_of k (with_scores k.uuid_text score_text ms) w ≡ (ok (map entry ms), w)
unfolding entries_of
entries_of-with_scores k score_text c [] w = refl
entries_of-with_scores k score_text c ((u, n) ∷ ms) w =
    rw (c.uuids u, c.scores n, entries_of-with_scores k score_text c ms w, as_u32-max_zero n) refl

-- The documented behaviour of the two commands on the sorted set under the provider's key.
pub record IsSortedSet {W : Type 0} (p : RedisProvider W) (k : Codecs) (score_text : ℕ → String)
    (scores : W → Scores) : Type 0 where
  pub ranges :
      (min : ℕ) (w : W)
      → (p.connection.zrangebyscore (dlq_key p) min w).0
        ≡ with_scores k.uuid_text score_text (keep (λ m. leb min m.1) (scores w))
  pub range_keeps :
      (min : ℕ) (w : W) → scores (p.connection.zrangebyscore (dlq_key p) min w).1 ≡ scores w
  pub removes :
      (min : ℕ) (w : W)
      → scores (p.connection.zremrangebyscore (dlq_key p) min w)
        ≡ keep (λ m. not (leb min m.1)) (scores w)
  pub fault_keeps : (w : W) → scores (p.connection.fault w).1 ≡ scores w

keep-none :
    (p : ℕ × ℕ → Bool) (u s : ℕ → String) (ms : Scores)
    → is_empty (with_scores u s (keep p ms)) ≡ true
    → keep (λ m. not (p m)) ms ≡ ms
keep-none p u s [] h = refl
keep-none p u s (m ∷ ms) h = ground (arith, keep-none p u s ms)

module _ {W : Type 0} (p : RedisProvider W) (k : Codecs) (score_text : ℕ → String)
    (scores : W → Scores) (set : IsSortedSet p k score_text scores) where
  script-removes :
      (threshold : ℕ) (w : W)
      → scores (drain_script p threshold w).1 ≡ keep (λ m. not (leb threshold m.1)) (scores w)
  unfolding drain_script
  script-removes threshold w =
      let items = (p.connection.zrangebyscore (dlq_key p) threshold w).0 in
      elim (Bool-cases (is_empty items)) [
        | inl t ↦ rw t (
            set.range_keeps threshold w
            ∙ sym (
                keep-none (λ m. leb threshold m.1) k.uuid_text score_text (scores w)
                  (ap is_empty (sym (set.ranges threshold w)) ∙ t)))
        | inr n ↦ rw n (
            set.removes threshold _
            ∙ ap (λ l. keep (λ m. not (leb threshold m.1)) l) (set.range_keeps threshold w))
      ]

  script-items :
      (threshold : ℕ) (w : W)
      → (drain_script p threshold w).0
        ≡ with_scores k.uuid_text score_text (keep (λ m. leb threshold m.1) (scores w))
  unfolding drain_script
  script-items threshold w =
      elim (Bool-cases (is_empty (p.connection.zrangebyscore (dlq_key p) threshold w).0)) [
        | inl t ↦ rw t (set.ranges threshold w)
        | inr n ↦ rw n (set.ranges threshold w)
      ]

  -- A drain takes what is due, once: it returns one entry for each event whose failure count has
  -- reached the threshold, with that count as a `u32` and no error text, and leaves exactly the others in the
  -- set; or its call fails with `InfrastructureError`, and the set is as before. The server keeps
  -- the documented behaviour of its commands, and the parsers read what the printers write.
  pub drain_exceeded-takes :
      (threshold : ℕ) (w : W)
      → IsCodec k score_text
      → let done = drain_exceeded k p threshold w in
        ((done.0 ≡ ok (map entry (keep (λ m. leb threshold m.1) (scores w))))
          × (scores done.1 ≡ keep (λ m. not (leb threshold m.1)) (scores w)))
        ⊎ ((x : String) × (done.0 ≡ err (infrastructure_error x)) × (scores done.1 ≡ scores w))
  unfolding drain_exceeded call
  drain_exceeded-takes threshold w c = elim (Option-cases (p.connection.fault w).0) [
    | inl q ↦
        let w1 = (p.connection.fault w).1 in
        inl (
          rw
            (
              q,
              script-items threshold w1,
              entries_of-with_scores k score_text c (keep (λ m. leb threshold m.1) (scores w1))
                  (drain_script p threshold w1).1,
            )
            (
              ap (λ l. ok (map entry (keep (λ m. leb threshold m.1) l))) (set.fault_keeps w),
              script-removes threshold w1
                  ∙ ap (λ l. keep (λ m. not (leb threshold m.1)) l) (set.fault_keeps w),
            ))
    | inr (m, q) ↦ inr (m, rw q refl, rw q (set.fault_keeps w))
  ]

-- ===== src/Redis/Counts.antt =====
-- The heap of outbox-redis/src/dlq.rs keeps the contract of `DlqHeap`.
use mathlib.Core.List.Memᴰ.{head, tail}
use oxide_outbox.Prelude.{
  ℕ, String, Bool, true, false, not, ◌≤◌, ◌≡◌, refl, sym, ◌∙◌, ap, inl, inr, List, [], ◌∷◌, map,
  keep, Memᴰ, contains, leb, ◌==◌, if◌then◌else◌, arith, Option-cases, Bool-cases, subst,
  In_of_keep, In_of_map, contains_of_In, In-keep,
}
use oxide_outbox.Exec.{ok}
use oxide_outbox.Object.EventId.{as_uuid}
use oxide_outbox.Model.{DlqEntry}
use oxide_outbox.Heap.{
  Counts, Counted, IsDrained, IsHeap, after_failure, after_success, after_drain,
}
use oxide_outbox.Redis.{RedisProvider, Codecs, call, dlq_key, redis_heap}
use oxide_outbox.Redis.Drain.{Scores, entry, IsCodec, IsSortedSet, drain_exceeded-takes}
use oxide_outbox.Postgres.Sql.{any_duplicate}

-- The score of a member, 0 where there is none.
abbrev pub score : Scores → Counts
score [] u = 0
score ((v, n) ∷ ms) u = if v == u then n else score ms u

abbrev pub members : Scores → List ℕ
members = map (λ m. m.0)

-- A score is a double: from here on, adding 1 does not change it.
abbrev pub last_exact : ℕ
last_exact = 9007199254740992

-- The documented behaviour of the two commands that count.
pub record IsCounting {W : Type 0} (p : RedisProvider W) (k : Codecs) (scores : W → Scores)
    : Type 0 where
  pub distinct : (w : W) → any_duplicate (members (scores w)) ≡ false
  pub positive : (w : W) (m : ℕ × ℕ) → Memᴰ m (scores w) → 1 ≤ m.1
  pub increments :
      (id u : ℕ) (w : W)
      → score (scores (p.connection.zincrby (dlq_key p) (k.uuid_text id) w)) u
        ≡ after_failure last_exact id u (score (scores w) u)
  pub forgets :
      (id u : ℕ) (w : W)
      → score (scores (p.connection.zrem (dlq_key p) (k.uuid_text id) w)) u
        ≡ after_success id u (score (scores w) u)

score-absent :
    (q : ℕ × ℕ → Bool) (ms : Scores) (u : ℕ)
    → contains (members ms) u ≡ false
    → score (keep q ms) u ≡ 0
score-absent q [] u h = refl
score-absent q ((v, n) ∷ ms) u h = ground (arith, score-absent q ms u)

score-rest :
    (t : ℕ) (ms : Scores) (u : ℕ)
    → any_duplicate (members ms) ≡ false
    → score (keep (λ m. not (leb t m.1)) ms) u ≡ after_drain t (score ms u)
score-rest t [] u h = ground arith
score-rest t ((v, n) ∷ ms) u h =
    ground (arith, score-rest t ms u, score-absent (λ m. not (leb t m.1)) ms u)

score-In :
    (ms : Scores) (u n : ℕ) → any_duplicate (members ms) ≡ false → Memᴰ (u, n) ms → score ms u ≡ n
score-In [] u n h i = elim i [ ]
score-In ((v, m) ∷ ms) u n h (head q) =
    ground (arith, ap (λ (x : ℕ × ℕ). x.0) q, ap (λ (x : ℕ × ℕ). x.1) q)
score-In ((v, m) ∷ ms) u n h (tail i) =
    ground (arith, contains_of_In (λ (x : ℕ × ℕ). x.0) (u, n) ms i, score-In ms u n)

the_same : {v u : ℕ} → v == u ≡ true → u ≡ v
the_same t = ground arith

In-score : (ms : Scores) (u : ℕ) → 1 ≤ score ms u → Memᴰ (u, score ms u) ms
In-score [] u h = absurd (omega arith)
In-score ((v, n) ∷ ms) u h = elim (Bool-cases (v == u)) [
  | inl t ↦ rw t (head (ap (λ j. (j, n)) (the_same t)))
  | inr f ↦ rw f (tail (In-score ms u (ground arith)))
]

ids-entries : (ms : Scores) → map (λ (e : DlqEntry). as_uuid e.id) (map entry ms) ≡ members ms
ids-entries [] = refl
ids-entries (m ∷ ms) = ap (λ us. m.0 ∷ us) (ids-entries ms)

contains-keep :
    (q : ℕ × ℕ → Bool) (ms : Scores) (u : ℕ)
    → contains (members ms) u ≡ false
    → contains (members (keep q ms)) u ≡ false
contains-keep q [] u h = refl
contains-keep q (m ∷ ms) u h = ground (arith, contains-keep q ms u)

distinct-keep :
    (q : ℕ × ℕ → Bool) (ms : Scores)
    → any_duplicate (members ms) ≡ false
    → any_duplicate (members (keep q ms)) ≡ false
distinct-keep q [] h = refl
distinct-keep q (m ∷ ms) h = ground (arith, distinct-keep q ms, contains-keep q ms m.0)

-- What the script returns is what is due.
due-IsDrained :
    (threshold : ℕ) (ms : Scores)
    → any_duplicate (members ms) ≡ false
    → ((m : ℕ × ℕ) → Memᴰ m ms → 1 ≤ m.1)
    → IsDrained threshold (score ms) (map entry (keep (λ m. leb threshold m.1) ms))
due-IsDrained threshold ms h one_each = record {
  due = λ e i.
      let (m, j, q) = In_of_map entry e _ i in
      let (k, t) = In_of_keep (λ m. leb threshold m.1) m ms j in
      let n = score-In ms m.0 m.1 h k in rw q (rw n (one_each m k, ground arith, refl));
  all = λ u one n. rw (ids-entries (keep (λ m. leb threshold m.1) ms)) (
      contains_of_In (λ (x : ℕ × ℕ). x.0) (u, score ms u) _
        (In-keep (λ m. leb threshold m.1) _ ms (In-score ms u one) (ground arith)));
  once = rw (ids-entries (keep (λ m. leb threshold m.1) ms)) (distinct-keep _ ms h);
}

ok_inj : {A : Type 0} {a b : A} → ok a ≡ ok b → a ≡ b
ok_inj q = cc

module _ {W : Type 0} (p : RedisProvider W) (k : Codecs) (score_text : ℕ → String)
    (scores : W → Scores) where
  -- A command behind a call that may fail before it is made.
  call-Counted :
      (f : ℕ → ℕ → ℕ) (run : W → W)
      → ((w : W) → scores (p.connection.fault w).1 ≡ scores w)
      → ((u : ℕ) (w : W) → score (scores (run w)) u ≡ f u (score (scores w) u))
      → (w : W)
      → let done = call p.connection (λ v. (tt, run v)) w in
        Counted f (score (scores w)) done.0 (score (scores done.1))
  unfolding call
  call-Counted f run keeps does w = elim (Option-cases (p.connection.fault w).0) [
    | inl q ↦ rw q (λ u. does u _ ∙ ap (λ ms. f u (score ms u)) (keeps w))
    | inr (m, q) ↦ rw q (λ u. ap (λ ms. score ms u) (keeps w))
  ]

  -- The heap on Redis keeps the contract of `DlqHeap`, with the scores of its sorted set as the
  -- counts: `record_failure` counts one up, `record_success` forgets the event, and
  -- `drain_exceeded` returns one entry for each tracked event whose count has reached the threshold,
  -- with the count as a `u32`, and forgets them; a call that fails changes no count. A counter stops
  -- at 2 ^ 53, where adding 1 to a double has no effect. The server keeps the documented behaviour
  -- of its commands, and the parsers read what the printers write.
  pub redis_heap-IsHeap :
      IsCodec k score_text
      → IsSortedSet p k score_text scores
      → IsCounting p k scores
      → IsHeap last_exact (λ w. score (scores w)) (redis_heap k p)
  redis_heap-IsHeap codec set counting = record {
    fails = λ id.
        call-Counted (after_failure last_exact (as_uuid id)) _ set.fault_keeps
          (counting.increments (as_uuid id));
    succeeds = λ id.
        call-Counted (after_success (as_uuid id)) _ set.fault_keeps (counting.forgets (as_uuid id));
    drains = λ threshold w.
        elim (drain_exceeded-takes p k score_text scores set threshold w codec) [
          | inl (q, left) ↦ rw q λ u.
              ap (λ ms. score ms u) left ∙ score-rest threshold (scores w) u (counting.distinct w)
          | inr (x, q, left) ↦ rw q λ u. ap (λ ms. score ms u) left
        ];
    returns = λ threshold w entries r.
        elim (drain_exceeded-takes p k score_text scores set threshold w codec) [
          | inl (q, left) ↦
              subst (IsDrained threshold (score (scores w))) (ok_inj (sym q ∙ r))
                (due-IsDrained threshold (scores w) (counting.distinct w) (counting.positive w))
          | inr (x, q, left) ↦ cc
        ];
  }

-- ===== src/Heap/Replay.antt =====
-- A sequence of calls on a `DlqHeap`, as the worker and the dead-letter task make them.
use oxide_outbox.Prelude.{ℕ, ◌≡◌, refl, ◌∙◌, ap, List, [], ◌∷◌}
use oxide_outbox.Exec.{Outcome, ok, err, panicked}
use oxide_outbox.Object.EventId.{EventId, as_uuid}
use oxide_outbox.Traits.{DlqHeap}
use oxide_outbox.Heap.{Counts, Counted, IsHeap, after_failure, after_success, after_drain}

pub data Op : Type 0 where
  fail : EventId → Op
  succeed : EventId → Op
  drain : ℕ → Op

-- What an operation does to the count of the event `u`.
abbrev pub effect_of : ℕ → Op → ℕ → ℕ → ℕ
effect_of most (fail id) u c = after_failure most (as_uuid id) u c
effect_of most (succeed id) u c = after_success (as_uuid id) u c
effect_of most (drain n) u c = after_drain n c

-- The count of `u` behind operations, the oldest first.
abbrev pub replay : ℕ → List Op → ℕ → ℕ → ℕ
replay most [] u c = c
replay most (o ∷ os) u c = replay most os u (effect_of most o u c)

abbrev when_ok : {A : Type 0} → Op → Outcome A → List Op → List Op
when_ok o (ok a) os = o ∷ os
when_ok o (err x) os = os
when_ok o (panicked m) os = os

module _ {W : Type 0} (heap : DlqHeap W) where
  -- The calls, one after another, and those of them that returned `Ok`.
  abbrev pub run : List Op → W → W
  run [] w = w
  run (fail id ∷ os) w = run os (heap.record_failure id w).1
  run (succeed id ∷ os) w = run os (heap.record_success id w).1
  run (drain n ∷ os) w = run os (heap.drain_exceeded n w).1

  abbrev pub took_effect : List Op → W → List Op
  took_effect [] w = []
  took_effect (fail id ∷ os) w =
      let (r, w') = heap.record_failure id w in when_ok (fail id) r (took_effect os w')
  took_effect (succeed id ∷ os) w =
      let (r, w') = heap.record_success id w in when_ok (succeed id) r (took_effect os w')
  took_effect (drain n ∷ os) w =
      let (r, w') = heap.drain_exceeded n w in when_ok (drain n) r (took_effect os w')

one_call :
    {A : Type 0} (most : ℕ) (o : Op) (u : ℕ) (r : Outcome A) (before after : Counts) (os : List Op)
    → Counted (effect_of most o) before r after
    → replay most os u (after u) ≡ replay most (when_ok o r os) u (before u)
one_call most o u (ok a) before after os h = ap (replay most os u) (h u)
one_call most o u (err x) before after os h = ap (replay most os u) (h u)
one_call most o u (panicked m) before after os h = ap (replay most os u) (h u)

-- The counts behind a sequence of calls are those of the operations that took effect.
pub run-replays :
    {W : Type 0} (most : ℕ) (counts : W → Counts) (heap : DlqHeap W)
    → IsHeap most counts heap
    → (os : List Op) (w : W) (u : ℕ)
    → counts (run heap os w) u ≡ replay most (took_effect heap os w) u (counts w u)
run-replays most counts heap h [] w u = refl
run-replays most counts heap h (fail id ∷ os) w u =
    let (r, w') = heap.record_failure id w in
    run-replays most counts heap h os w' u
    ∙ one_call most (fail id) u r (counts w) (counts w') (took_effect heap os w') (h.fails id w)
run-replays most counts heap h (succeed id ∷ os) w u =
    let (r, w') = heap.record_success id w in
    run-replays most counts heap h os w' u
    ∙ one_call most (succeed id) u r (counts w) (counts w') (took_effect heap os w')
        (h.succeeds id w)
run-replays most counts heap h (drain n ∷ os) w u =
    let (r, w') = heap.drain_exceeded n w in
    run-replays most counts heap h os w' u
    ∙ one_call most (drain n) u r (counts w) (counts w') (took_effect heap os w') (h.drains n w)

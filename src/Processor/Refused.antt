-- ===== src/Processor/Refused.antt =====
-- An event that the broker refuses batch after batch, in the counts of the heap.
use mathlib.Core.List.Memᴰ.{head, tail}
use oxide_outbox.Prelude.{
  ℕ, suc, ◌≤◌, ◌<◌, Bool, true, false, ◌≡◌, refl, inl, inr, Option, some, List, [], ◌∷◌, map, Memᴰ,
  contains, arith, Bool-cases, ◌==◌, ltb,
}
use oxide_outbox.Exec.{Outcome, ok}
use oxide_outbox.Object.EventId.{as_uuid}
use oxide_outbox.Runtime.{Metrics}
use oxide_outbox.Model.{Event}
use oxide_outbox.Traits.{DlqHeap}
use oxide_outbox.Heap.{Counts, IsHeap}
use oxide_outbox.Heap.Replay.{effect_of, replay}
use oxide_outbox.Processor.{OutboxProcessor, process_pending_events}
use oxide_outbox.Processor.Counting.{IsJudged, noted, notes, process_pending_events-counts}

-- The broker accepts no event with this identifier.
abbrev pub Refuses : {P : Type 0} → (Event P → Bool) → ℕ → List (Event P) → Type 0
Refuses {P} accepts u es = (e : Event P) → Memᴰ e es → as_uuid e.id ≡ u → accepts e ≡ false

abbrev pub ids_of : {P : Type 0} → List (Event P) → List ℕ
ids_of es = map (λ e. as_uuid e.id) es

module _ {P : Type 0} (most : ℕ) (accepts : Event P → Bool) (u : ℕ) where
  -- What one event does to the count: nothing, or it is refused and counts.
  one_event :
      (e : Event P) (v : Bool) (c : ℕ)
      → (as_uuid e.id ≡ u → v ≡ false)
      → let c' = effect_of most (noted e v) u c in
        (c ≤ c')
        × (as_uuid e.id == u ≡ true → c < most → c < c')
        × (as_uuid e.id == u ≡ false → c' ≡ c)
  one_event e false c r = (ground arith, (λ t l. ground arith), λ n. ground arith)
  one_event e true c r = (ground (arith, r), (λ t l. absurd (ground (arith, r))), λ n. ground arith)

  refused-grows :
      (es : List (Event P)) (c : ℕ) → Refuses accepts u es → c ≤ replay most (notes accepts es) u c
  refused-grows [] c r = omega arith
  refused-grows (e ∷ es) c r = omega (
    arith,
    (one_event e (accepts e) c (r e (head refl))).0,
    refused-grows es (effect_of most (noted e (accepts e)) u c) (λ a i. r a (tail i)),
  )

  refused-counts :
      (es : List (Event P)) (c : ℕ)
      → Refuses accepts u es
      → contains (ids_of es) u ≡ true
      → c < most
      → c < replay most (notes accepts es) u c
  refused-counts [] c r i l = cc
  refused-counts (e ∷ es) c r i l =
      let (_, counts, skips) = one_event e (accepts e) c (r e (head refl)) in
      let rest : Refuses accepts u es = λ a j. r a (tail j) in
      let c' = effect_of most (noted e (accepts e)) u c in
      elim (Bool-cases (as_uuid e.id == u)) [
        | inl t ↦ omega (arith, counts t l, refused-grows es c' rest)
        | inr n ↦ rw (replay, skips n) (refused-counts es c rest (ground arith) l)
      ]

module _ {P W : Type 0} (most : ℕ) (counts : W → Counts) (accepts : Event P → Bool)
    (heap : DlqHeap W) (metrics : Option (Metrics W)) (p : OutboxProcessor P W) (u : ℕ) where
  abbrev pub batch : W → Outcome ℕ × W
  batch = process_pending_events (some heap) metrics p

  -- `k` batches that returned `Ok`, each of which fetched the event `u`, and the broker refused it.
  -- In between, other tasks leave its count alone.
  pub data Refused : ℕ → W → W → Type 0 where
    never : (w : W) → Refused 0 w w
    again :
        {k : ℕ} {w w' : W} (w'' : W) (es : List (Event P)) (n : ℕ)
        → Refused k w w'
        → counts w'' u ≡ counts w' u
        → (p.storage.fetch_next_to_process p.config.batch_size w'').0 ≡ ok es
        → (batch w'').0 ≡ ok n
        → contains (ids_of es) u ≡ true
        → Refuses accepts u es
        → Refused (suc k) w (batch w'').1

  -- Each of them counts, up to the end of the counter.
  pub Refused-counts :
      IsHeap most counts heap
      → IsJudged counts accepts p metrics
      → {k : ℕ} {w w' : W} → Refused k w w'
      → k ≤ most
      → k ≤ counts w' u
  Refused-counts h c (never w) l = omega arith
  Refused-counts h c (again {k = k} {w' = w'} w'' es n before same fetch done i r) l =
      let so_far = Refused-counts h c before (omega arith) in
      let now =
        process_pending_events-counts most counts accepts heap metrics p h c w'' n u es fetch
          done in
      elim (Bool-cases (ltb (counts w'' u) most)) [
        | inl less ↦
            let more = refused-counts most accepts u es (counts w'' u) r i (ground arith) in
            omega (arith, more, now, so_far, same)
        | inr full ↦
            let kept = refused-grows most accepts u es (counts w'' u) r in
            ground (arith, kept, now, so_far, same)
      ]

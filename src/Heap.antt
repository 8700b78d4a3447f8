-- ===== src/Heap.antt =====
-- What the documentation of `DlqHeap` in outbox-core/src/dlq/storage.rs promises, over the failure
-- counts that an implementation holds: one number for each event, 0 where it tracks none.
pub mod Replay
use oxide_outbox.Prelude.{
  ℕ, zero, suc, ◌≤◌, ◌≡◌, Bool, true, false, List, [], ◌∷◌, map, Memᴰ, contains, ltb, leb, ◌==◌,
  if◌then◌else◌,
}
use oxide_outbox.Exec.{Outcome, ok, err, panicked, Exec}
use oxide_outbox.Object.EventId.{EventId, as_uuid}
use oxide_outbox.Model.{DlqEntry}
use oxide_outbox.Traits.{DlqHeap}
use oxide_outbox.Postgres.Sql.{any_duplicate}

abbrev pub Counts : Type 0
Counts = ℕ → ℕ

abbrev pub u32_max : ℕ
u32_max = 4294967295

-- A count as a `u32`.
abbrev pub to_u32 : ℕ → ℕ
to_u32 n = if leb n u32_max then n else u32_max

-- What each operation does to the count of the event `u`; a counter stops at `most`.
abbrev pub after_failure : ℕ → ℕ → ℕ → ℕ → ℕ
after_failure most id u c = if id == u then (if ltb c most then suc c else c) else c

abbrev pub after_success : ℕ → ℕ → ℕ → ℕ
after_success id u c = if id == u then 0 else c

abbrev pub after_drain : ℕ → ℕ → ℕ
after_drain threshold c = if leb threshold c then 0 else c

-- A call that returns `Ok` did `f` to every count, and any other call nothing.
abbrev pub Counted : {A : Type 0} → (ℕ → ℕ → ℕ) → Counts → Outcome A → Counts → Type 0
Counted f before (ok a) after = (u : ℕ) → after u ≡ f u (before u)
Counted f before (err x) after = (u : ℕ) → after u ≡ before u
Counted f before (panicked m) after = (u : ℕ) → after u ≡ before u

-- The entries of a drain: one for each tracked event whose count has reached the threshold.
pub record IsDrained (threshold : ℕ) (counts : Counts) (entries : List DlqEntry) : Type 0 where
  pub due :
      (e : DlqEntry)
      → Memᴰ e entries
      → (1 ≤ counts (as_uuid e.id))
        × (threshold ≤ counts (as_uuid e.id))
        × (e.failure_count ≡ to_u32 (counts (as_uuid e.id)))
  pub all :
      (u : ℕ)
      → 1 ≤ counts u
      → threshold ≤ counts u
      → contains (map (λ (e : DlqEntry). as_uuid e.id) entries) u ≡ true
  pub once : any_duplicate (map (λ (e : DlqEntry). as_uuid e.id) entries) ≡ false

pub record IsHeap {W : Type 0} (most : ℕ) (counts : W → Counts) (heap : DlqHeap W) : Type 0 where
  pub fails :
      (id : EventId) (w : W)
      → let done = heap.record_failure id w in
        Counted (after_failure most (as_uuid id)) (counts w) done.0 (counts done.1)
  pub succeeds :
      (id : EventId) (w : W)
      → let done = heap.record_success id w in
        Counted (after_success (as_uuid id)) (counts w) done.0 (counts done.1)
  pub drains :
      (threshold : ℕ) (w : W)
      → let done = heap.drain_exceeded threshold w in
        Counted (λ _. after_drain threshold) (counts w) done.0 (counts done.1)
  pub returns :
      (threshold : ℕ) (w : W) (entries : List DlqEntry)
      → (heap.drain_exceeded threshold w).0 ≡ ok entries
      → IsDrained threshold (counts w) entries

-- ===== src/Processor/Delivered.antt =====
-- The loop of `event_publish` in processor.rs, seen from the broker: what it has taken when the loop
-- ends, and that the loop ends normally where nothing but a `publish` fails.
use mathlib.Core.List.Memᴰ.{head, tail}
use oxide_outbox.Prelude.{
  ◌⊎◌, inl, inr, ℕ, String, true, ◌≡◌, refl, sym, subst, Option, List, [], ◌∷◌, ◌++◌, map, Memᴰ,
  contains, arith,
}
use oxide_outbox.Exec.{Outcome, ok, err, panicked}
use oxide_outbox.Exec.Laws.{Returns}
use oxide_outbox.Object.EventId.{EventId, as_uuid}
use oxide_outbox.Object.EventType
use oxide_outbox.Runtime.{Metrics}
use oxide_outbox.Model.{Event}
use oxide_outbox.Traits.{Transport, DlqHeap}
use oxide_outbox.Processor.{
  OutboxProcessor, note_success, note_failure, success_metrics, error_metrics, settle, publish_one,
  publish_all,
}

-- An event whose `publish` returned `Ok` was taken, and nothing that the loop does takes it back.
pub record IsTopic {P W : Type 0} (took : W → Event P → Type 0) (transport : Transport P W)
    (heap : Option (DlqHeap W)) (metrics : Option (Metrics W)) : Type 0 where
  pub accepts :
      (e : Event P) (w : W) → (transport.publish e w).0 ≡ ok tt → took (transport.publish e w).1 e
  pub by_publish : (e f : Event P) (w : W) → took w f → took (transport.publish e w).1 f
  pub by_success :
      (id : EventId) (f : Event P) (w : W) → took w f → took (note_success heap id w).1 f
  pub by_failure :
      (id : EventId) (f : Event P) (w : W) → took w f → took (note_failure heap id w).1 f
  pub by_success_metrics :
      (ty : String) (f : Event P) (w : W) → took w f → took (success_metrics metrics ty w) f
  pub by_error_metrics :
      (ty : String) (f : Event P) (w : W) → took w f → took (error_metrics metrics ty w) f

-- A broker that returns, and a heap that answers.
pub record IsSmooth {P W : Type 0} (transport : Transport P W) (heap : Option (DlqHeap W))
    : Type 0 where
  pub publishes : (e : Event P) → Returns (transport.publish e)
  pub successes : (id : EventId) (w : W) → (note_success heap id w).0 ≡ ok tt
  pub failures : (id : EventId) (w : W) → (note_failure heap id w).0 ≡ ok tt

-- The broker takes the event whenever it is asked.
abbrev pub IsWelcome : {P W : Type 0} → Transport P W → Event P → Type 0
IsWelcome {W = W} transport e = (w : W) → (transport.publish e w).0 ≡ ok tt

abbrev pub Has : List EventId → ℕ → Type 0
Has ids k = contains (map as_uuid ids) k ≡ true

Has-left : (ids more : List EventId) (k : ℕ) → Has ids k → Has (ids ++ more) k
Has-left [] more k h = cc
Has-left (id ∷ ids) more k h = ground (arith, Has-left ids more k)

pub Has-only :
    (ids : List EventId) (id : EventId) (k : ℕ)
    → Has (ids ++ id ∷ []) k
    → Has ids k ⊎ (k ≡ as_uuid id)
Has-only [] id k h = inr (ground arith)
Has-only (i ∷ ids) id k h = ground (arith, Has-only ids id k)

Has-last : (ids : List EventId) (id : EventId) → Has (ids ++ id ∷ []) (as_uuid id)
Has-last [] id = ground arith
Has-last (i ∷ ids) id = ground (arith, Has-last ids id)

here_or :
    {P C : Type 0} (e : Event P) (es : List (Event P)) (f : Event P)
    → Memᴰ f (e ∷ es)
    → (f ≡ e → C)
    → (Memᴰ f es → C)
    → C
here_or e es f (head q) now later = now q
here_or e es f (tail i) now later = later i

module _ {P W : Type 0} (took : W → Event P → Type 0) (heap : Option (DlqHeap W))
    (metrics : Option (Metrics W)) (p : OutboxProcessor P W)
    (c : IsTopic took p.publisher heap metrics) (s : IsSmooth p.publisher heap) where
  -- A part of the loop ends normally, loses no identifier and undoes no delivery.
  abbrev Onward : List EventId → W → List EventId → Outcome (List EventId) × W → Type 0
  Onward ids w ids' done =
      (done.0 ≡ ok ids')
      × ((k : ℕ) → Has ids k → Has ids' k)
      × ((f : Event P) → took w f → took done.1 f)

  -- What is collected beyond `ids` are identifiers of these events.
  abbrev Gathered : List (Event P) → List EventId → List EventId → Type 0
  Gathered es ids ids' =
      (k : ℕ)
      → Has ids' k
      → Has ids k ⊎ (contains (map (λ (e : Event P). as_uuid e.id) es) k ≡ true)

  -- The event was taken, and its identifier collected.
  abbrev Arrived : Event P → List EventId → W → Type 0
  Arrived e ids w = took w e × Has ids (as_uuid e.id)

  settle-Onward :
      (e : Event P) (ids : List EventId) (r : Outcome (Unit {0})) (w : W)
      → ((m : String) → ¬ (r ≡ panicked m))
      → (r ≡ ok tt → took w e)
      → let done = settle heap metrics e ids r w in
        (ids' : List EventId) × Onward ids w ids' done
        × (r ≡ ok tt → Arrived e ids' done.1)
        × Gathered (e ∷ []) ids ids'
  unfolding settle
  settle-Onward e ids (ok u) w calm now =
      let noted = s.successes e.id w in
      let grows : (f : Event P)
          → took w f
          → took
              (success_metrics metrics (EventType.to_string e.event_type)
                (note_success heap e.id w).1)
              f =
        λ f t. c.by_success_metrics _ f _ (c.by_success e.id f w t) in
      rw noted (
        ids ++ e.id ∷ [],
        (refl, (λ k h. Has-left ids _ k h), grows),
        (λ q. (grows e (now q), Has-last ids e.id)),
        (λ k h. elim (Has-only ids e.id k h) [ inl old ↦ inl old | inr new ↦ inr (ground arith) ]),
      )
  settle-Onward e ids (err x) w calm now =
      let noted = s.failures e.id w in
      rw noted (
        ids,
        (refl, (λ k h. h), (λ f t. c.by_error_metrics _ f _ (c.by_failure e.id f w t))),
        (λ q. cc),
        (λ k h. inl h),
      )
  settle-Onward e ids (panicked m) w calm now = absurd (calm m refl)

  publish_one-Onward :
      (e : Event P) (ids : List EventId) (w : W)
      → let done = publish_one heap metrics p e ids w in
        (ids' : List EventId) × Onward ids w ids' done
        × (IsWelcome p.publisher e → Arrived e ids' done.1)
        × Gathered (e ∷ []) ids ids'
  unfolding publish_one
  publish_one-Onward e ids w =
      let (r, w') = p.publisher.publish e w in
      let (ids', (q, keeps, grows), arrived, only) =
        settle-Onward e ids r w' (λ m t. s.publishes e w m t) (λ t. c.accepts e w t) in
      (
        ids',
        (q, keeps, (λ f t. grows f (c.by_publish e f w t))),
        (λ welcome. arrived (welcome w)),
        only,
      )

  -- The loop ends normally, and every event that the broker takes was taken, and its identifier
  -- collected, and no others were but from these events.
  pub publish_all-Arrived :
      (es : List (Event P)) (ids : List EventId) (w : W)
      → let done = publish_all heap metrics p es ids w in
        (ids' : List EventId) × Onward ids w ids' done
        × ((f : Event P) → Memᴰ f es → IsWelcome p.publisher f → Arrived f ids' done.1)
        × Gathered es ids ids'
  unfolding publish_all
  publish_all-Arrived [] ids w =
      (ids, (refl, (λ k h. h), (λ f t. t)), (λ f i. elim i [ ]), (λ k h. inl h))
  publish_all-Arrived (e ∷ es) ids w =
      let (mid, (q, keeps, grows), first, one) = publish_one-Onward e ids w in
      let w1 = (publish_one heap metrics p e ids w).1 in
      let (ids', (q', keeps', grows'), rest, more) = publish_all-Arrived es mid w1 in
      rw q (
        ids',
        (q', (λ k h. keeps' k (keeps k h)), (λ f t. grows' f (grows f t))),
        (λ f i welcome.
            here_or e es f i
              (λ same.
                let (t, h) = first (subst (IsWelcome p.publisher) same welcome) in
                subst (λ g. Arrived g ids' (publish_all heap metrics p es mid w1).1) (sym same)
                  (grows' e t, keeps' (as_uuid e.id) h))
              (λ j. rest f j welcome)),
        (λ k h. elim (more k h) [
          | inl mine ↦ elim (one k mine) [ inl old ↦ inl old | inr now ↦ inr (ground arith) ]
          | inr later ↦ inr (ground arith)
        ]),
      )

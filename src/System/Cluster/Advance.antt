-- ===== src/System/Cluster/Advance.antt =====
-- A worker's next call, in custody: rows are marked only when the broker has taken their events.
use oxide_outbox.Prelude.{
  ℕ, String, true, ◌≡◌, refl, subst, ◌⊎◌, inl, inr, Option, none, some, List, [], ◌∷◌, ◌++◌, map,
  contains, arith,
}
use oxide_outbox.Exec.{Outcome, ok, err, panicked}
use oxide_outbox.Exec.Laws.{bind_post}
use oxide_outbox.Object.EventId.{EventId, as_uuid}
use oxide_outbox.Object.EventType
use oxide_outbox.Runtime.{Metrics}
use oxide_outbox.Model.{Event}
use oxide_outbox.Traits.{DlqHeap}
use oxide_outbox.Processor.{
  note_success, note_failure, success_metrics, error_metrics, settle, mark,
}
use oxide_outbox.Processor.Aside.{settle-Keeps}
use oxide_outbox.Processor.Steps.{
  Phase, ready, sending, noting, finished, advance, after_fetch, after_publish, after_note,
  after_mark,
}
use oxide_outbox.Postgres.Sql.{Db, uuid_of}
use oxide_outbox.Postgres.Custody.{Held, InCustody}
use oxide_outbox.Postgres.Custody.Calls.{fetch-InCustody, update-InCustody}
use oxide_outbox.System.{heaped, measured}
use oxide_outbox.System.Batch.{carried-IsAside}
use oxide_outbox.System.Cluster.{Site, IsLedger, Collected, site_processor, site_advance}

module _ {P : Type 0} (D D' : ℕ → Type 0) (more : (j : ℕ) → D j → D' j) where
  pub Held-mono : (k : ℕ) (db : Db P) → Held D k db → Held D' k db
  Held-mono k db (inl t) = inl t
  Held-mono k db (inr (inl t)) = inr (inl t)
  Held-mono k db (inr (inr d)) = inr (inr (more k d))

  pub InCustody-mono : (k : ℕ) (db : Db P) → InCustody D k db → InCustody D' k db
  InCustody-mono k db h = ((λ e i q. more (uuid_of e) (h.0 e i q)), Held-mono k db h.1)

  pub Collected-mono : (c : Phase P) → Collected D c → Collected D' c
  Collected-mono ready h = tt
  Collected-mono (sending es ids count) h = λ j t. more j (h j t)
  Collected-mono (noting e (ok u) es ids count) h =
      (more (uuid_of e) h.0, (λ j t. more j (h.1 j t)))
  Collected-mono (noting e (err x) es ids count) h = λ j t. more j (h j t)
  Collected-mono (noting e (panicked m) es ids count) h = λ j t. more j (h j t)
  Collected-mono (finished r) h = tt

contains-push :
    (ids : List EventId) (id : EventId) (j : ℕ)
    → contains (map as_uuid (ids ++ id ∷ [])) j ≡ true
    → (contains (map as_uuid ids) j ≡ true) ⊎ (as_uuid id ≡ j)
contains-push [] id j h = inr (ground arith)
contains-push (i ∷ ids) id j h = ground (arith, contains-push ids id j)

module _ {A X : Type 0} where
  pub note_success-rest :
      (heap : Option (DlqHeap X)) (id : EventId) (w : A × X)
      → (note_success (heaped heap) id w).1.1 ≡ (note_success heap id w.1).1
  note_success-rest none id w = refl
  note_success-rest (some h) id w = refl

  pub note_failure-rest :
      (heap : Option (DlqHeap X)) (id : EventId) (w : A × X)
      → (note_failure (heaped heap) id w).1.1 ≡ (note_failure heap id w.1).1
  note_failure-rest none id w = refl
  note_failure-rest (some h) id w = refl

  pub success_metrics-rest :
      (metrics : Option (Metrics X)) (ty : String) (w : A × X)
      → (success_metrics (measured metrics) ty w).1 ≡ success_metrics metrics ty w.1
  success_metrics-rest none ty w = refl
  success_metrics-rest (some m) ty w = refl

  pub error_metrics-rest :
      (metrics : Option (Metrics X)) (ty : String) (w : A × X)
      → (error_metrics (measured metrics) ty w).1 ≡ error_metrics metrics ty w.1
  error_metrics-rest none ty w = refl
  error_metrics-rest (some m) ty w = refl

module _ {P X : Type 0} (s : Site P X) (delivered : X → ℕ → Type 0) (l : IsLedger s delivered) where
  settle-Grows :
      (e : Event P) (ids : List EventId) (r : Outcome (Unit {0})) (w : Db P × X) (j : ℕ)
      → delivered w.1 j
      → delivered (settle (heaped s.heap) (measured s.metrics) e ids r w).1.1 j
  unfolding settle
  settle-Grows e ids (ok u) w j d =
      let Q = λ (r : Outcome (List EventId)) (v : Db P × X). delivered v.1 j in
      let noted : delivered (note_success (heaped s.heap) e.id w).1.1 j =
        rw (note_success-rest s.heap e.id w) (l.by_success e.id w.1 j d) in
      bind_post Q (note_success (heaped s.heap) e.id) _ w
        (λ _ _.
          rw
            (success_metrics-rest s.metrics (EventType.to_string e.event_type)
              (note_success (heaped s.heap) e.id w).1)
            (l.by_success_metrics (EventType.to_string e.event_type) _ j noted))
        (λ _ _. noted) (λ _ _. noted)
  settle-Grows e ids (err x) w j d =
      let Q = λ (r : Outcome (List EventId)) (v : Db P × X). delivered v.1 j in
      let noted : delivered (note_failure (heaped s.heap) e.id w).1.1 j =
        rw (note_failure-rest s.heap e.id w) (l.by_failure e.id w.1 j d) in
      bind_post Q (note_failure (heaped s.heap) e.id) _ w
        (λ _ _.
          rw
            (error_metrics-rest s.metrics (EventType.to_string e.event_type)
              (note_failure (heaped s.heap) e.id w).1)
            (l.by_error_metrics (EventType.to_string e.event_type) _ j noted))
        (λ _ _. noted) (λ _ _. noted)
  settle-Grows e ids (panicked m) w j d = d

  settle-Collected :
      (D : ℕ → Type 0) (e : Event P) (es : List (Event P)) (ids : List EventId) (count : ℕ)
      (r : Outcome (Unit {0})) (w : Db P × X)
      → Collected D (noting e r es ids count)
      → Collected D (after_note es count (settle (heaped s.heap) (measured s.metrics) e ids r w).0)
  unfolding settle
  settle-Collected D e es ids count (ok u) w h =
      bind_post (λ r (v : Db P × X). Collected D (after_note es count r))
        (note_success (heaped s.heap) e.id) _ w
        (λ _ _ j t. elim (contains-push ids e.id j t) [
          | inl old ↦ h.1 j old
          | inr new ↦ subst D new h.0
        ])
        (λ _ _. tt) (λ _ _. tt)
  settle-Collected D e es ids count (err x) w h =
      bind_post (λ r (v : Db P × X). Collected D (after_note es count r))
        (note_failure (heaped s.heap) e.id) _ w (λ _ _. h) (λ _ _. tt) (λ _ _. tt)
  settle-Collected D e es ids count (panicked m) w h = tt

  fetch-Collected : (D : ℕ → Type 0) (r : Outcome (List (Event P))) → Collected D (after_fetch r)
  fetch-Collected D (ok []) = tt
  fetch-Collected D (ok (e ∷ es)) = λ j t. cc
  fetch-Collected D (err x) = tt
  fetch-Collected D (panicked m) = tt

  publish-Collected :
      (D : ℕ → Type 0) (e : Event P) (es : List (Event P)) (ids : List EventId) (count : ℕ)
      (r : Outcome (Unit {0}))
      → (r ≡ ok tt → D (uuid_of e))
      → Collected D (sending (e ∷ es) ids count)
      → Collected D (after_publish e es ids count r)
  publish-Collected D e es ids count (ok u) d h = (d refl, h)
  publish-Collected D e es ids count (err x) d h = h
  publish-Collected D e es ids count (panicked m) d h = tt

  mark-Collected :
      (D : ℕ → Type 0) (count : ℕ) (r : Outcome (Unit {0}))
      → Collected D (after_mark {P = P} count r)
  mark-Collected D count (ok u) = tt
  mark-Collected D count (err x) = tt
  mark-Collected D count (panicked m) = tt

  mark-InCustody :
      (k : ℕ) (ids : List EventId) (w : Db P × X)
      → Collected {P = P} (delivered w.1) (sending [] ids 0)
      → InCustody (delivered w.1) k w.0
      → InCustody (delivered w.1) k (mark (site_processor s) ids w).1.0
        × ((mark (site_processor s) ids w).1.1 ≡ w.1)
  unfolding mark
  mark-InCustody k [] w d h = (h, refl)
  mark-InCustody k (id ∷ ids) w d h = (update-InCustody (delivered w.1) k (id ∷ ids) w.0 d h, refl)

  -- What a worker's call keeps: the custody of every event, what it has collected, and the
  -- deliveries.
  abbrev pub IsAdvanced : ℕ → X → Phase P × (Db P × X) → Type 0
  IsAdvanced k x done =
      InCustody (delivered done.1.1) k done.1.0
      × Collected (delivered done.1.1) done.0
      × ((j : ℕ) → delivered x j → delivered done.1.1 j)

  pub advance-IsAdvanced :
      (k : ℕ) (c : Phase P) (w : Db P × X)
      → InCustody (delivered w.1) k w.0
      → Collected (delivered w.1) c
      → IsAdvanced k w.1 (site_advance s c w)
  unfolding advance
  advance-IsAdvanced k ready w h d = (
    fetch-InCustody (delivered w.1) k s.config s.config.batch_size w.0 h,
    fetch-Collected (delivered w.1) _,
    (λ j e. e),
  )
  advance-IsAdvanced k (sending [] ids count) w h d =
      let (kept, same) = mark-InCustody k ids w d h in
      rw same (kept, mark-Collected (delivered w.1) count _, (λ j e. e))
  advance-IsAdvanced k (sending (e ∷ es) ids count) w h d =
      let grows = l.by_publish e w.1 in
      (
        InCustody-mono _ _ grows k w.0 h,
        publish-Collected _ e es ids count _ (λ q. l.accepts e w.1 q) (λ j t. grows j (d j t)),
        grows,
      )
  advance-IsAdvanced k (noting e r es ids count) w h d =
      let grows = settle-Grows e ids r w in
      let same =
        (settle-Keeps (heaped s.heap) (measured s.metrics) (λ (v : Db P × X). v.0) _
            (carried-IsAside s.transport s.heap s.metrics) e ids r).same
          w in
      (
        rw same (InCustody-mono _ _ grows k w.0 h),
        settle-Collected _ e es ids count r w
            (Collected-mono _ _ grows (noting e r es ids count) d),
        grows,
      )
  advance-IsAdvanced k (finished r) w h d = (h, d, (λ j e. e))

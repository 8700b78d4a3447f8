-- ===== src/System/Cluster/Runs.antt =====
-- The worker loop of manager.rs, run on PostgreSQL, as calls of the deployed tasks: what leads where
-- those calls lead.
pub mod Worker
pub mod Survives
use oxide_outbox.Prelude.{ℕ, ◌≡◌, refl, ◌∙◌, ap, inl, inr, List, All, All-map, Bool-cases}
use oxide_outbox.Runtime.{Shutdown}
use oxide_outbox.Loop.{Flow, go_on, stop, starved, unwound, Turn, on_changed, resume, run_loop}
use oxide_outbox.Loop.Stopping.{run_loop-invariant}
use oxide_outbox.Manager
use oxide_outbox.Gc
use oxide_outbox.Reaper
use oxide_outbox.Postgres.Sql.{Db}
use oxide_outbox.System.Cluster.{Site, Cluster, Step, Reach, here, next}

abbrev pub world : {P X : Type 0} → Cluster P X → Db P × X
world c = (c.db, c.rest)

module _ {P X : Type 0} (s : Site P X) (delivered : X → ℕ → Type 0) where
  -- From `c` the calls of the tasks lead to a cluster whose world is `w`.
  abbrev pub Leads : Cluster P X → Db P × X → Type 0
  Leads c w = (c' : Cluster P X) × Reach s delivered c c' × (world c' ≡ w)

  -- What a part of the program does to the world is what calls of the tasks do.
  abbrev pub Moves : (Db P × X → Db P × X) → Type 0
  Moves f = (c : Cluster P X) → Leads c (f (world c))

  Reach-trans :
      {a b c : Cluster P X} → Reach s delivered a b → Reach s delivered b c → Reach s delivered a c
  Reach-trans r here = r
  Reach-trans r (next q step) = next (Reach-trans r q) step

  pub stay : (c : Cluster P X) → Leads c (world c)
  stay c = (c, here, refl)

  pub Leads-Moves :
      (f : Db P × X → Db P × X) (c : Cluster P X) (w : Db P × X)
      → Moves f
      → Leads c w
      → Leads c (f w)
  Leads-Moves f c w move (c', r, q) =
      let (c'', r', q') = move c' in (c'', Reach-trans r r', q' ∙ ap f q)

  pub by_step : (c c' : Cluster P X) (w : Db P × X) → Step s delivered c c' → Leads c' w → Leads c w
  by_step c c' w step (c'', r, q) = (c'', Reach-trans (next here step) r, q)

  -- A loop whose rounds are moves, among tasks that are, is a move.
  pub runs-Leads :
      {Arm : Type 0} (round : Arm → Db P × X → Flow × (Db P × X))
      → ((arm : Arm) → Moves (λ w. (round arm w).1))
      → (ts : List (Turn Arm (Db P × X))) → All (λ t. Moves t.others) ts
      → Moves (λ w. (run_loop round ts w).1)
  runs-Leads round each ts others c =
      run_loop-invariant round (Leads c)
        (λ arm w h. Leads-Moves (λ v. (round arm v).1) c w (each arm) h) ts
        (All-map (λ t. Moves t.others) (λ t. (w : Db P × X) → Leads c w → Leads c (t.others w))
          (λ t move w h. Leads-Moves t.others c w move h) ts others)
        (world c) (stay c)

  pub on_changed-Moves : (rx : Shutdown (Db P × X)) → Moves (λ w. (on_changed rx w).1)
  on_changed-Moves rx c = elim (Bool-cases (rx.closed (world c))) [
    | inl t ↦ rw t (stay c)
    | inr n ↦ elim (Bool-cases (rx.value (world c))) [
      | inl t ↦ rw (n, t) (stay c)
      | inr m ↦ rw (n, m) (stay c)
    ]
  ]

  pub resume-Leads :
      (c : Cluster P X) (r : Flow × (Db P × X)) (onward : Db P × X → Flow × (Db P × X))
      → Leads c r.1
      → Moves (λ w. (onward w).1)
      → Leads c (resume r onward).1
  resume-Leads c (go_on, w) onward h move = Leads-Moves (λ v. (onward v).1) c w move h
  resume-Leads c (stop, w) onward h move = h
  resume-Leads c (starved, w) onward h move = h
  resume-Leads c (unwound m, w) onward h move = h

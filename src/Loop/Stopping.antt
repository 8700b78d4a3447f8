-- ===== src/Loop/Stopping.antt =====
-- When a background loop ends, and what it has done by then.
use oxide_outbox.Prelude.{true, false, ◌≡◌, refl, List, [], ◌∷◌, All, arith}
use oxide_outbox.Runtime.{Shutdown}
use oxide_outbox.Loop.{
  Flow, go_on, stop, starved, unwound, Turn, signalled, on_changed, resume, run_loop,
}

pub resume_post :
    {W : Type 0} (Q : Flow → W → Type 0) (r : Flow × W) (next : W → Flow × W)
    → Q r.0 r.1
    → (r.0 ≡ go_on → Q (next r.1).0 (next r.1).1)
    → Q (resume r next).0 (resume r next).1
resume_post Q (go_on, w) next now then_on = then_on refl
resume_post Q (stop, w) next now then_on = now
resume_post Q (starved, w) next now then_on = now
resume_post Q (unwound s, w) next now then_on = now

module _ {Arm W : Type 0} (round : Arm → W → Flow × W) where
  -- What holds after every round, however it ends, and of a loop that still runs, holds after the
  -- loop.
  pub run_loop-post :
      (Q : Flow → W → Type 0)
      → ((w : W) → Q go_on w)
      → ((arm : Arm) (w : W) → Q (round arm w).0 (round arm w).1)
      → (ts : List (Turn Arm W)) (w : W) → Q (run_loop round ts w).0 (run_loop round ts w).1
  unfolding run_loop
  run_loop-post Q still each [] w = still w
  run_loop-post Q still each (t ∷ ts) w =
      resume_post Q (round t.arm (t.others w)) (λ v. run_loop round ts v) (each t.arm (t.others w))
        (λ _. run_loop-post Q still each ts (round t.arm (t.others w)).1)

  -- An invariant of the rounds and of the other tasks is one of the loop.
  pub run_loop-invariant :
      (I : W → Type 0)
      → ((arm : Arm) (w : W) → I w → I (round arm w).1)
      → (ts : List (Turn Arm W)) → All (λ t. (w : W) → I w → I (t.others w)) ts
      → (w : W) → I w
      → I (run_loop round ts w).1
  unfolding run_loop
  run_loop-invariant I each [] friendly w h = h
  run_loop-invariant I each (t ∷ ts) friendly w h =
      let after = each t.arm (t.others w) (friendly.0 w h) in
      resume_post (λ _ v. I v) (round t.arm (t.others w)) (λ v. run_loop round ts v) after
        (λ _. run_loop-invariant I each ts friendly.1 (round t.arm (t.others w)).1 after)

-- The flow that ends a loop only on a shutdown.
abbrev pub StopsOnSignal : {W : Type 0} → Shutdown W → Flow → W → Type 0
StopsOnSignal rx stop w = signalled rx w ≡ true
StopsOnSignal rx _ w = Unit {0}

pub on_changed-StopsOnSignal :
    {W : Type 0} (rx : Shutdown W) (w : W)
    → StopsOnSignal rx (on_changed rx w).0 (on_changed rx w).1
on_changed-StopsOnSignal rx w = ground arith

-- A loop that neither panics nor runs out of fuel, and ends only on a shutdown.
abbrev pub Survives : {W : Type 0} → Shutdown W → Flow → W → Type 0
Survives rx go_on w = Unit {0}
Survives rx stop w = signalled rx w ≡ true
Survives rx starved w = ⊥
Survives rx (unwound s) w = ⊥

pub on_changed-Survives :
    {W : Type 0} (rx : Shutdown W) (w : W) → Survives rx (on_changed rx w).0 (on_changed rx w).1
on_changed-Survives rx w = ground arith

pub on_changed_raised :
    {W : Type 0} (rx : Shutdown W) (w : W) → signalled rx w ≡ true → on_changed rx w ≡ (stop, w)
on_changed_raised rx w h = ground arith

pub on_changed_silent :
    {W : Type 0} (rx : Shutdown W) (w : W) → signalled rx w ≡ false → on_changed rx w ≡ (go_on, w)
on_changed_silent rx w h = ground arith

pub resume_onward :
    {W : Type 0} (r : Flow × W) (next : W → Flow × W) → r.0 ≡ go_on → resume r next ≡ next r.1
resume_onward (go_on, w) next h = refl
resume_onward (stop, w) next h = cc
resume_onward (starved, w) next h = cc
resume_onward (unwound s, w) next h = cc

-- ===== src/Gc/Ticks.antt =====
-- How often a background task does its work before it ends.
use oxide_outbox.Prelude.{ℕ, suc, ◌+◌, true, false, ◌≡◌, refl, ◌∙◌, List, [], ◌∷◌, ◌++◌, All, arith}
use oxide_outbox.Runtime.{Shutdown}
use oxide_outbox.Gc.{Arm, tick, changed}
use oxide_outbox.Loop.{Flow, go_on, stop, Turn, signalled, on_changed, run_loop}
use oxide_outbox.Loop.Stopping.{on_changed_raised, on_changed_silent, resume_onward}

abbrev pub is_tick : Arm → ℕ
is_tick tick = 1
is_tick changed = 0

abbrev pub ticks : {W : Type 0} → List (Turn Arm W) → ℕ
ticks [] = 0
ticks (t ∷ ts) = is_tick t.arm + ticks ts

-- Turns of other tasks that neither signal a shutdown nor do this task's work.
abbrev pub Quiet : {W : Type 0} → Shutdown W → (W → ℕ) → List (Turn Arm W) → Type 0
Quiet {W} rx count ts =
    All
      (λ t.
        ((w : W) → signalled rx w ≡ false → signalled rx (t.others w) ≡ false)
        × ((w : W) → count (t.others w) ≡ count w))
      ts

-- One round of work: it goes on, counts one, and leaves the shutdown channel alone.
pub record IsWork {W : Type 0} (rx : Shutdown W) (count : W → ℕ) (work : W → Flow × W)
    : Type 0 where
  pub goes_on : (w : W) → (work w).0 ≡ go_on
  pub counts : (w : W) → count (work w).1 ≡ suc (count w)
  pub silent : (w : W) → signalled rx w ≡ false → signalled rx (work w).1 ≡ false

module _ {W : Type 0} (rx : Shutdown W) (count : W → ℕ) (round : Arm → W → Flow × W)
    (works : IsWork rx count (round tick))
    (checks : (w : W) → round changed w ≡ on_changed rx w) where
  -- After a quiet beginning the loop still runs, and has worked once for each tick.
  round-quiet :
      (arm : Arm) (w : W)
      → signalled rx w ≡ false
      → ((round arm w).0 ≡ go_on)
        × (count (round arm w).1 ≡ is_tick arm + count w)
        × (signalled rx (round arm w).1 ≡ false)
  round-quiet tick w h = (works.goes_on w, works.counts w ∙ omega arith, works.silent w h)
  round-quiet changed w h = rw (checks, on_changed_silent rx w h) (refl, omega arith, h)

  pub run_loop-ticks :
      (quiet : List (Turn Arm W)) (last : Turn Arm W) (after : List (Turn Arm W)) (w : W)
      → Quiet rx count quiet
      → last.arm ≡ changed
      → ((v : W) → signalled rx (last.others v) ≡ true)
      → ((v : W) → count (last.others v) ≡ count v)
      → signalled rx w ≡ false
      → let done = run_loop round (quiet ++ last ∷ after) w in
        (done.0 ≡ stop) × (count done.1 ≡ ticks quiet + count w)
  unfolding run_loop
  run_loop-ticks [] last after w q e raise same h =
      rw (e, checks, on_changed_raised rx (last.others w) (raise w)) (refl, same w ∙ omega arith)
  run_loop-ticks (t ∷ ts) last after w q e raise same h =
      let (onward, counted, still) = round-quiet t.arm (t.others w) (q.0.0 w h) in
      let (ends, total) =
        run_loop-ticks ts last after (round t.arm (t.others w)).1 q.1 e raise same still in
      rw
        (resume_onward (round t.arm (t.others w)) (λ v. run_loop round (ts ++ last ∷ after) v)
          onward)
        (ends, omega (arith, total, counted, q.0.1 w))

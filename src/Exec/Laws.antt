-- ===== src/Exec/Laws.antt =====
-- Rules for what holds after a call: of its outcome and of the world that it leaves.
use oxide_outbox.Prelude.{String, ◌≢◌, ◌≡◌, refl, ◌∙◌, ◌⊎◌, inl, inr}
use oxide_outbox.Exec.{OutboxError, Outcome, ok, err, panicked, Exec, ◌>>=◌, continue}

pub Outcome-cases {ℓ} :
    {A : Type ℓ} (r : Outcome A)
    → ((a : A) × (r ≡ ok a)) ⊎ (((e : OutboxError) × (r ≡ err e)) ⊎ ((s : _) × (r ≡ panicked s)))
Outcome-cases (ok a) = inl (a, refl)
Outcome-cases (err e) = inr (inl (e, refl))
Outcome-cases (panicked s) = inr (inr (s, refl))

module _ {ℓ κ μ} {W : Type 0} {A : Type ℓ} {B : Type κ} where
  -- One obligation for each outcome of the first call.
  pub continue_post :
      (Q : Outcome B → W → Type μ) (r : Outcome A) (f : A → Exec W B) (w : W)
      → ((a : A) → r ≡ ok a → Q (f a w).0 (f a w).1)
      → ((e : OutboxError) → r ≡ err e → Q (err e) w)
      → ((s : _) → r ≡ panicked s → Q (panicked s) w)
      → Q (continue r f w).0 (continue r f w).1
  continue_post Q (ok a) f w on_ok on_err on_panic = on_ok a refl
  continue_post Q (err e) f w on_ok on_err on_panic = on_err e refl
  continue_post Q (panicked s) f w on_ok on_err on_panic = on_panic s refl

  pub bind_post :
      (Q : Outcome B → W → Type μ) (m : Exec W A) (f : A → Exec W B) (w : W)
      → ((a : A) → (m w).0 ≡ ok a → Q (f a (m w).1).0 (f a (m w).1).1)
      → ((e : OutboxError) → (m w).0 ≡ err e → Q (err e) (m w).1)
      → ((s : _) → (m w).0 ≡ panicked s → Q (panicked s) (m w).1)
      → Q ((m >>= f) w).0 ((m >>= f) w).1
  bind_post Q m f w = continue_post Q (m w).0 f (m w).1

-- An action that leaves a view of the world as it was.
pub record Keeps {ℓ κ} {W : Type 0} {A : Type ℓ} {V : Type κ} (view : W → V) (m : Exec W A)
    : Type κ where
  pub same : (w : W) → view (m w).1 ≡ view w

module _ {ℓ κ μ} {W : Type 0} {A : Type ℓ} {B : Type κ} {V : Type μ} where
  pub bind-Keeps :
      (view : W → V) (m : Exec W A) (f : A → Exec W B)
      → Keeps view m
      → ((a : A) → Keeps view (f a))
      → Keeps view (m >>= f)
  bind-Keeps view m f km kf = record {
    same = λ w.
        continue_post (λ r w'. view w' ≡ view w) (m w).0 f (m w).1
          (λ a _. (kf a).same (m w).1 ∙ km.same w) (λ e _. km.same w) (λ s _. km.same w);
  }

-- An operation that returns: an error is allowed, a panic is not.
abbrev pub Returns {ℓ} : {W : Type 0} {A : Type ℓ} → Exec W A → Type ℓ
Returns {W = W} m = (w : W) (s : String) → (m w).0 ≢ panicked s

module _ {ℓ κ} {W : Type 0} {A : Type ℓ} {B : Type κ} where
  pub bind-Returns :
      (m : Exec W A) (f : A → Exec W B) → Returns m → ((a : A) → Returns (f a)) → Returns (m >>= f)
  bind-Returns m f rm rf w s =
      continue_post (λ r _. r ≢ panicked s) (m w).0 f (m w).1 (λ a _. rf a (m w).1 s) (λ e _ q. cc)
        (λ t p. absurd (rm w t p))

-- ===== src/Exec.antt =====
-- outbox-core/src/error.rs, and how an async function of the crate is modelled: as a function of
-- the world `W` (all that the other parties hold: tables, broker, caches, clocks, channels) that
-- returns an outcome and the next world. What was done before an error or a panic stays done.
pub mod Laws
use Prim.Native.String.{◌++◌}
use oxide_outbox.Prelude.{String, Option, none, some}

-- `enum OutboxError`
pub data OutboxError : Type 0 where
  infrastructure_error : String → OutboxError
  duplicate_event : OutboxError
  database_error : String → OutboxError
  broker_error : String → OutboxError
  config_error : String → OutboxError

-- The `Display` of the error, from the `#[error(…)]` attributes.
unfoldable pub display : OutboxError → String
display (infrastructure_error s) = "Infrastructure error: " ++ s
display duplicate_event = "Duplicate error"
display (database_error s) = "Database error: " ++ s
display (broker_error s) = "Broker error: " ++ s
display (config_error s) = "Config error: " ++ s

-- `Result<A, OutboxError>`, with the panic as a third outcome.
pub data Outcome {ℓ} (A : Type ℓ) : Type ℓ where
  ok : A → Outcome A
  err : OutboxError → Outcome A
  panicked : String → Outcome A

abbrev pub Exec {ℓ} : Type 0 → Type ℓ → Type ℓ
Exec W A = W → Outcome A × W

module _ {ℓ} {W : Type 0} {A : Type ℓ} where
  abbrev pub pure : A → Exec W A
  pure a w = (ok a, w)

  abbrev pub raise : OutboxError → Exec W A
  raise e w = (err e, w)

  abbrev pub panic : String → Exec W A
  panic s w = (panicked s, w)

  -- An infallible effect.
  abbrev pub effect : (W → A × W) → Exec W A
  effect f w = let (a, w') = f w in (ok a, w')

  -- `Option::expect`
  abbrev pub expect : String → Option A → Exec W A
  expect msg none = panic msg
  expect msg (some a) = pure a

  -- `Option::ok_or_else`
  abbrev pub ok_or : OutboxError → Option A → Exec W A
  ok_or e none = raise e
  ok_or e (some a) = pure a

module _ {ℓ κ} {W : Type 0} {A : Type ℓ} {B : Type κ} where
  -- The operator `?`: what follows a call, from its outcome.
  abbrev pub continue : Outcome A → (A → Exec W B) → Exec W B
  continue (ok a) f w = f a w
  continue (err e) f w = (err e, w)
  continue (panicked s) f w = (panicked s, w)

infixl 5 ◌>>=◌ ◌>>◌
abbrev pub ◌>>=◌ {ℓ κ} :
    {W : Type 0} {A : Type ℓ} {B : Type κ} → Exec W A → (A → Exec W B) → Exec W B
◌>>=◌ m f w = let (r, w') = m w in continue r f w'

abbrev pub ◌>>◌ {κ} : {W : Type 0} {B : Type κ} → Exec W (Unit {0}) → Exec W B → Exec W B
m >> k = m >>= λ _. k

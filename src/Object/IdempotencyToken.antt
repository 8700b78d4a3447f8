-- ===== src/Object/IdempotencyToken.antt =====
-- outbox-core/src/object.rs, `IdempotencyToken`.
use oxide_outbox.Prelude.{String}

pub record IdempotencyToken : Type 0 where
  pub text : String

abbrev pub new : String → IdempotencyToken
new token = record { text = token }

abbrev pub as_str : IdempotencyToken → String
as_str t = t.text

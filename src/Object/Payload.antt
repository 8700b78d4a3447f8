-- ===== src/Object/Payload.antt =====
-- outbox-core/src/object.rs, `Payload<T>`.
pub record Payload (T : Type 0) : Type 0 where
  pub inner : T

abbrev pub new : {T : Type 0} → T → Payload T
new payload = record { inner = payload }

abbrev pub from_ref : {T : Type 0} → T → Payload T
from_ref value = record { inner = value }

abbrev pub as_value : {T : Type 0} → Payload T → T
as_value p = p.inner

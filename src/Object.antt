-- ===== src/Object.antt =====
-- outbox-core/src/object.rs: the newtypes of an event's fields, one module each.
pub mod EventId
pub mod IdempotencyToken
pub mod EventType
pub mod Payload

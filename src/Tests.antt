-- ===== src/Tests.antt =====
-- The unit tests of outbox-core/src, as runs of the model: each test is a Boolean, with the doubles
-- that it sets up, and holds by computation.
pub mod Mock
pub mod Producer
pub mod Batch
pub mod Assembly
pub mod Values
pub mod Objects
pub mod Background
pub mod Manager

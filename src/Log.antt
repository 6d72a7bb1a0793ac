-- ===== src/Log.antt =====
-- components/src/log: the log service.
pub mod Message
pub mod Transport
pub mod Client

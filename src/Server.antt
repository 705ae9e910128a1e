-- ===== src/Server.antt =====
-- agent_room/server, but the buffers of runs, which Runs models.
pub mod Envelope
pub mod Sessions
pub mod Workspace
pub mod Api
pub mod Tenancy
pub mod Compat

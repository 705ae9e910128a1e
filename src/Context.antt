-- ===== src/Context.antt =====
-- agent_room/context: bounding the messages that a model is sent.
pub mod Tokens
pub mod Engine
pub mod Alignment
pub mod Window
pub mod Pressure
pub mod Summary

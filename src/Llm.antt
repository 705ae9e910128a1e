-- ===== src/Llm.antt =====
-- agent_room/llm: the calls of the chat models.
pub mod Structured
pub mod Invoke
pub mod ContextWindow

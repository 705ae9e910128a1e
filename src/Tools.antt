-- ===== src/Tools.antt =====
-- agent_room/tools: what a tool call may touch.
pub mod Safety
pub mod Policy
pub mod Approval
pub mod Spill
pub mod Registry
pub mod Files
pub mod Command

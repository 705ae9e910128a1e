-- ===== src/Eval.antt =====
-- agent_room/eval: the evaluation of variants of the graph on tasks.
pub mod Task
pub mod Runner
pub mod Report
pub mod Coding

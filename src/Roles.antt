-- ===== src/Roles.antt =====
-- agent_room/roles: one node per role. A node reads the state and returns an update; its model, tools
-- and files are arguments.
pub mod Prompts
pub mod Transport
pub mod Planner
pub mod PlannerGate
pub mod Developer
pub mod DeveloperReact
pub mod Reviewer
pub mod ReviewerTwoCall
pub mod Supervisor
pub mod Verifier
pub mod Delivery

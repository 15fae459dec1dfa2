-- ===== src/Agents.antt =====
-- app/agents: the planner, the executor and the reviewer. A step of a plan is the dict that the
-- planner builds, by its `kind`.
pub mod Planner
pub mod Executor
pub mod Reviewer

-- ===== src/Agent.antt =====
-- The agent (python/analytics/agent): a question becomes a plan, the plan is checked against the
-- registry of tools and run.
pub mod Config
pub mod Json
pub mod Plan
pub mod Registry
pub mod Status
pub mod Router
pub mod Planner
pub mod Executor
pub mod Model
pub mod Narrator
pub mod Main
mod Tests

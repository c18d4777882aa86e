-- ===== src/Orchestrator.antt =====
-- apps/orchestrator/src/orchestrator.ts
pub mod Store
pub mod Dispatch
pub mod Flow
pub mod Replies
pub mod RunStart
pub mod Sweeper
pub mod Watchdog
pub mod System
pub mod Tests

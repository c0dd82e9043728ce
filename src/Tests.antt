-- ===== src/Tests.antt =====
-- Concrete runs of the programs.
pub mod Runtime
pub mod World
pub mod Scenario
mod Spends
mod Builds
mod Pool
mod Layouts
mod Insert
mod Client

-- ===== src/ServerApp.antt =====
-- SuperComServerApp.cc, the application of a server: the jobs it runs, its power states, and the
-- times that its energy is computed for.
pub mod State
pub mod Cores
pub mod Handle
pub mod Outcome
pub mod Run
pub mod Energy
pub mod Undone
pub mod Tests

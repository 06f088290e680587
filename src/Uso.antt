-- ===== src/Uso.antt =====
-- SuperComUSO.cc, the scheduler of a federation: which data centre a job goes to.
pub mod Ratio
pub mod State
pub mod Sites
pub mod Select
pub mod Request
pub mod Tests

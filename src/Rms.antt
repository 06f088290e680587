-- ===== src/Rms.antt =====
-- SuperComRmsApp.cc and SuperComRmsApp.h of "Energy-aware supercomputing": the resource
-- management system of a data centre, which queues jobs and places them on servers.
pub mod State
pub mod Numbered
pub mod Search
pub mod Queue
pub mod Connect
pub mod Estimate
pub mod Sleep
pub mod Dequeue
pub mod Request
pub mod Finish
pub mod Initialize
pub mod Run
pub mod Tests

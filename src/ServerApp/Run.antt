-- ===== src/ServerApp/Run.antt =====
-- Runs of a server of SuperComServerApp.cc: the messages of the RMS, its own messages, and the
-- passing of time. What a step assumes of a message is what the RMS does: it starts jobs that fit,
-- suspends a server that is idle and wakes one that is suspended.
pub mod Totals
pub mod Consistent
pub mod Ended
pub mod Power
pub mod Handled
use cplusplus_projects.Common.{
  ℕ, ◌+◌, ◌≤◌, ◌<◌, ◌≡◌, ◌≢◌, ◌⊎◌, List, [], ◌∷◌, ◌++◌, ℤ, pos, ◌+ℤ◌, ◌≤ℤ◌, ◌<ℤ◌, pos_part, Result,
  ok,
}
use cplusplus_projects.ServerApp.State.{
  HddState, OperationMode, powered_on, Complete, Internal, Scheduled, ServerApp, Parameters,
  initialize, compute_energy, idle_load,
}
use cplusplus_projects.ServerApp.Cores.Marked.{IsProperLoad, count_loads}
use cplusplus_projects.ServerApp.Handle.{Job, receive, Arrival, expire}

-- A job with a core, a load between 1 and 99, and no negative amount of memory.
pub record IsProper (cores load memory : ℤ) : Type 0 where
  pub some_cores : pos 0 <ℤ cores
  pub some_load : IsProperLoad load
  pub some_memory : pos 0 ≤ℤ memory

-- The self-message `m` has its time, with the others before and behind it.
abbrev pub at_time : List Scheduled → Scheduled → List Scheduled → ServerApp → ServerApp
at_time before m behind s = record s { now = m.time; scheduled = before ++ behind }

-- What happens, and what is computed then. `junk` is what the first element of an empty vector of
-- loaded times is read as.
pub data Event (s : ServerApp) : Result ServerApp → Type 0 where
  request :
      (conn : ℕ) (j : Job)
      → IsProper j.cores j.load j.memory
      → pos 0 ≤ℤ j.run_time
      → s.running_jobs <ℤ pos 4
      → s.used_memory +ℤ j.memory ≤ℤ s.memory
      → pos_part j.cores ≤ count_loads s.hardware.cpus idle_load
      → Event s (receive conn (Arrival.request j) s)
  suspend :
      (conn : ℕ) (mode : ℤ)
      → (mode ≡ pos 1) ⊎ (mode ≡ pos 2)
      → s.hardware.hdd_state ≡ HddState.idle
      → Event s (receive conn (Arrival.sleep mode) s)
  wake :
      (conn client : ℕ)
      → s.operation_mode ≢ powered_on
      → Event s (receive conn (Arrival.wakeup client) s)
  data_in : (conn : ℕ) → Event s (receive conn Arrival.input s)
  timeout :
      (junk : ℤ) (before : List Scheduled) (m : Scheduled) (behind : List Scheduled)
      → s.scheduled ≡ before ++ m ∷ behind
      → s.now ≤ℤ m.time
      → Event s (expire junk m.message (at_time before m behind s))
  update : Event s (ok (compute_energy s))
  tick : (t : ℤ) → s.now ≤ℤ t → Event s (ok (record s { now = t }))

-- A server with idle cores and an idle disk, that sends some data at the end of a job and whose
-- delay is not negative.
pub record IsStart (p : Parameters) : Type 0 where
  pub cores : p.core_load ≡ idle_load
  pub disk : p.hdd_state ≡ HddState.idle
  pub output : pos 0 <ℤ p.output_data
  pub delay : pos 0 ≤ℤ p.reply_delay

-- The states of a run.
pub data Reachable (p : Parameters) : ServerApp → Type 0 where
  start : Reachable p (initialize p)
  step : {s t : ServerApp} → Reachable p s → Event s (ok t) → Reachable p t

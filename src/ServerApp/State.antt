-- ===== src/ServerApp/State.antt =====
-- The state of SuperComServerApp.h, and what `initialize` and computeEnergy do to it. A load, in the
-- source a percentage, is kept in halves of a percent, a loaded time, a proportion, in millionths,
-- and that of the disk in halves of them, as it is an average of two. An energy, computed in
-- floating point, is not kept: `charges` lists the periods that it was computed for, each with the
-- mode and the hardware at its end.
use cplusplus_projects.Common.{ℕ, zero, suc, ◌*◌, Bool, List, [], ◌∷◌, ◌++◌, ℤ, pos}

-- The values of HDDstate, from 1 on.
pub data HddState : Type 0 where
  idle loaded standby startup : HddState

-- The values of operationMode, from 0 on.
pub data OperationMode : Type 0 where
  powered_on standby hybernated : OperationMode

-- RAMstick, the fields that the server writes.
pub record RamStick : Type 0 where
  pub size : ℕ
  pub loaded : Bool

-- The cores' loads by CPU, the memory and the hard disk.
pub record Hardware : Type 0 where
  pub cpus : List (List ℤ)
  pub ram : List RamStick
  pub hdd_state : HddState
  pub hdd_loaded_time : ℤ

-- The load 0.5, of an idle core; 20.5, while the server wakes up; and 0.0, in sleep.
abbrev pub idle_load : ℤ
idle_load = pos 1

abbrev pub waking_load : ℤ
waking_load = pos 41

abbrev pub asleep_load : ℤ
asleep_load = pos 0

-- The proportion 1.
abbrev pub whole : ℤ
whole = pos 1_000_000

-- What computeEnergy was computed for.
pub record Charge : Type 0 where
  pub since : ℤ
  pub until : ℤ
  pub mode : OperationMode
  pub hardware : Hardware

-- The message that ends a job.
pub record Complete : Type 0 where
  pub conn_id : ℕ
  pub client_address : ℕ
  pub need_memory : ℤ
  pub cores : ℤ
  pub load : ℤ
  pub loaded_time : ℤ

-- The self-messages, SuperComInternalMsg.
pub data Internal : Type 0 where
  complete : Complete → Internal
  sleep_response : ℕ → Internal
  wakeup_response : ℕ → ℕ → Internal

-- A self-message with the time it is scheduled for.
pub record Scheduled : Type 0 where
  pub time : ℤ
  pub message : Internal

-- What goes back to the RMS: the connection, the client and, at the end of a job, cores and bytes.
pub data Reply : Type 0 where
  finish : ℕ → ℕ → ℤ → ℤ → Reply
  slept : ℕ → Reply
  woken : ℕ → ℕ → Reply

pub record ServerApp : Type 0 where
  pub delay : ℤ
  pub memory : ℤ
  pub output_data : ℤ
  pub used_memory : ℤ
  pub running_jobs : ℤ
  pub operation_mode : OperationMode
  pub from : ℤ
  pub now : ℤ
  pub loaded_times : List ℤ
  pub hardware : Hardware
  pub scheduled : List Scheduled
  pub charges : List Charge
  pub sent : List Reply

-- The module's parameters.
pub record Parameters : Type 0 where
  pub num_ram_sticks : ℕ
  pub ram_stick_size : ℕ
  pub ram_loaded : Bool
  pub num_cpus : ℕ
  pub num_cores : ℕ
  pub core_load : ℤ
  pub hdd_state : HddState
  pub hdd_loaded_time : ℤ
  pub reply_delay : ℤ
  pub output_data : ℤ

-- A loop that pushes the same element `n` times.
unfoldable pub push {ℓ} : {A : Type ℓ} → ℕ → A → List A
push zero x = []
push (suc n) x = x ∷ push n x

unfoldable pub initialize : Parameters → ServerApp
initialize p = record {
  delay = p.reply_delay;
  memory = pos (p.num_ram_sticks * p.ram_stick_size);
  output_data = p.output_data;
  used_memory = pos 0;
  running_jobs = pos 0;
  operation_mode = powered_on;
  from = pos 0;
  now = pos 0;
  loaded_times = [];
  hardware = record {
    cpus = push p.num_cpus (push p.num_cores p.core_load);
    ram = push p.num_ram_sticks (record { size = p.ram_stick_size; loaded = p.ram_loaded });
    hdd_state = p.hdd_state;
    hdd_loaded_time = p.hdd_loaded_time;
  };
  scheduled = [];
  charges = [];
  sent = [];
}

-- computeEnergy: the energy of the time since `from`.
unfoldable pub compute_energy : ServerApp → ServerApp
compute_energy s = record s {
  charges =
      s.charges
      ++ record { since = s.from; until = s.now; mode = s.operation_mode; hardware = s.hardware }
        ∷ [];
  from = s.now;
}

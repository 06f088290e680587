-- ===== src/ServerApp/Handle.antt =====
-- handleMessage, response, sleepResponse and wakeupResponse of SuperComServerApp.cc.
use cplusplus_projects.Common.{
  ℕ, true, false, List, [], ◌∷◌, ◌++◌, ℤ, pos, ◌+ℤ◌, ◌-ℤ◌, ltb_ℤ, leb_ℤ, ◌==ℤ◌, if◌then◌else◌,
  Result, ok, fault, Fault,
}
use cplusplus_projects.Rms.State.{seconds}
use cplusplus_projects.ServerApp.State.{
  HddState, OperationMode, Hardware, Complete, Internal, complete, sleep_response, wakeup_response,
  Reply, finish, slept, woken, ServerApp, compute_energy, idle_load, waking_load, asleep_load,
}
use cplusplus_projects.ServerApp.Cores.{
  allocate_cores, unload_cores, set_loads, load_ram, unload_ram, compute_loaded_time,
  remove_loaded_time,
}

-- The fields of SuperComMsg that the server reads when a job comes.
pub record Job : Type 0 where
  pub run_time : ℤ
  pub memory : ℤ
  pub cores : ℤ
  pub load : ℤ
  pub loaded_time : ℤ
  pub client_address : ℕ

abbrev pub complete_of : ℕ → Job → Complete
complete_of conn j = record {
  conn_id = conn;
  client_address = j.client_address;
  need_memory = j.memory;
  cores = j.cores;
  load = j.load;
  loaded_time = j.loaded_time;
}

-- scheduleAt.
abbrev pub schedule : ℤ → Internal → ServerApp → ServerApp
schedule t m s = record s { scheduled = s.scheduled ++ record { time = t; message = m } ∷ [] }

-- The hardware after a job came; the vector of loaded times has an element then.
abbrev pub loaded_hardware : Job → ℤ → List ℤ → Hardware → Hardware
loaded_hardware j used times h = record {
  cpus = allocate_cores j.load j.cores 0 h.cpus;
  ram = load_ram used 0 true h.ram;
  hdd_state = HddState.loaded;
  hdd_loaded_time = compute_loaded_time (pos 0) times;
}

-- The state after a job came that is not refused.
abbrev pub start_job : ℕ → Job → ServerApp → ServerApp
start_job conn j s =
    let used = s.used_memory +ℤ j.memory in
    let times = s.loaded_times ++ j.loaded_time ∷ [] in
    record (compute_energy (schedule (s.now +ℤ j.run_time) (complete (complete_of conn j)) s)) {
      running_jobs = s.running_jobs +ℤ pos 1;
      loaded_times = times;
      used_memory = used;
      hardware = loaded_hardware j used times s.hardware;
    }

-- MSGKIND_REQUEST. scheduleAt does not take a time before the current one.
unfoldable pub receive_request : ℕ → Job → ServerApp → Result ServerApp
receive_request conn j s =
    if ltb_ℤ (pos 4) (s.running_jobs +ℤ pos 1)
    then fault Fault.too_many_jobs
    else (if ltb_ℤ j.run_time (pos 0)
        then fault Fault.past_time
        else (if ltb_ℤ s.memory (s.used_memory +ℤ j.memory)
            then fault Fault.memory_exceeded
            else ok (start_job conn j s)))

-- MSGKIND_SLEEP. Another sleep mode leaves the delay and the mode of operation.
abbrev pub sleep_delay : ℤ → ℤ → ℤ
sleep_delay sleep_mode d =
    if sleep_mode ==ℤ pos 1 then seconds 5 else (if sleep_mode ==ℤ pos 2 then seconds 90 else d)

abbrev pub mode_of : ℤ → OperationMode → OperationMode
mode_of sleep_mode m =
    if sleep_mode ==ℤ pos 1
    then OperationMode.standby
    else (if sleep_mode ==ℤ pos 2 then OperationMode.hybernated else m)

unfoldable pub receive_sleep : ℕ → ℤ → ServerApp → ServerApp
receive_sleep conn sleep_mode s = record (compute_energy (schedule s.now (sleep_response conn) s)) {
  hardware = record s.hardware {
    cpus = set_loads asleep_load s.hardware.cpus;
    hdd_state = HddState.standby;
  };
  delay = sleep_delay sleep_mode s.delay;
  operation_mode = mode_of sleep_mode s.operation_mode;
}

-- MSGKIND_WAKEUP, with a delay that is not negative.
unfoldable pub receive_wakeup : ℕ → ℕ → ServerApp → ServerApp
receive_wakeup conn client s =
    record (compute_energy (schedule (s.now +ℤ s.delay) (wakeup_response conn client) s)) {
      operation_mode = OperationMode.powered_on;
      hardware = record s.hardware {
        cpus = set_loads waking_load s.hardware.cpus;
        hdd_state = HddState.startup;
      };
    }

-- The messages of the RMS.
pub data Arrival : Type 0 where
  request : Job → Arrival
  sleep : ℤ → Arrival
  wakeup : ℕ → Arrival
  input : Arrival

-- TCP_I_DATA of handleMessage. A delay to an earlier time is a fault of scheduleAt.
unfoldable pub receive : ℕ → Arrival → ServerApp → Result ServerApp
receive conn (request j) s = receive_request conn j s
receive conn (sleep mode) s = ok (receive_sleep conn mode s)
receive conn (wakeup client) s =
    if ltb_ℤ s.delay (pos 0) then fault Fault.past_time else ok (receive_wakeup conn client s)
receive conn input s = ok s

abbrev pub reply : Reply → ServerApp → ServerApp
reply m s = record s { sent = s.sent ++ m ∷ [] }

-- The disk after the end of a job: with fewer than no jobs left, it stays.
abbrev pub hdd_after : ℤ → HddState → HddState
hdd_after jobs h =
    if jobs ==ℤ pos 0 then HddState.idle else (if ltb_ℤ (pos 0) jobs then HddState.loaded else h)

-- The hardware after the end of a job.
abbrev pub unloaded_hardware : ℤ → Complete → ℤ → ℤ → List ℤ → Hardware → Hardware
unloaded_hardware behind c used jobs times h = record {
  cpus = unload_cores c.load c.cores 0 h.cpus;
  ram = if used ==ℤ pos 0 then unload_ram h.ram else load_ram used 0 true h.ram;
  hdd_state = hdd_after jobs h.hdd_state;
  hdd_loaded_time = compute_loaded_time behind times;
}

-- The state after the end of a job. What element 0 of an empty vector is read as is `behind`.
abbrev pub end_job : ℤ → Complete → ServerApp → ServerApp
end_job behind c s =
    let used = s.used_memory -ℤ c.need_memory in
    let jobs = s.running_jobs -ℤ pos 1 in
    let times = remove_loaded_time c.loaded_time false s.loaded_times in
    reply (finish c.conn_id c.client_address c.cores s.output_data) (record (compute_energy s) {
      used_memory = used;
      running_jobs = jobs;
      loaded_times = times;
      hardware = unloaded_hardware behind c used jobs times s.hardware;
    })

-- response.
unfoldable pub response : ℤ → Complete → ServerApp → Result ServerApp
response behind c s =
    if ltb_ℤ (s.used_memory -ℤ c.need_memory) (pos 0)
    then fault Fault.negative_memory
    else (if leb_ℤ s.output_data (pos 0)
        then fault Fault.bad_output
        else (if ltb_ℤ (s.running_jobs -ℤ pos 1) (pos 0)
            then fault Fault.negative_jobs
            else ok (end_job behind c s)))

unfoldable pub respond_wakeup : ℕ → ℕ → ServerApp → ServerApp
respond_wakeup conn client s = reply (woken conn client) (record (compute_energy s) {
  hardware = record s.hardware {
    cpus = set_loads idle_load s.hardware.cpus;
    hdd_state = HddState.idle;
  };
})

-- The self-messages of handleMessage.
unfoldable pub expire : ℤ → Internal → ServerApp → Result ServerApp
expire behind (complete c) s = response behind c s
expire behind (sleep_response conn) s = ok (reply (slept conn) s)
expire behind (wakeup_response conn client) s = ok (respond_wakeup conn client s)

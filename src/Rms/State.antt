-- ===== src/Rms/State.antt =====
-- The structures of SuperComRmsApp.h and the accessors of SuperComRmsApp.cc. A lookup by ID or
-- by client address returns the first entry that matches; a dereference of NULL is a fault.
use cplusplus_projects.Common.{
  ℕ, ◌*◌, ◌==◌, Bool, true, false, List, [], ◌∷◌, ◌++◌, ℤ, pos, negsuc, ◌+ℤ◌, ◌==ℤ◌, if◌then◌else◌,
  Result, ok, fault, Fault, ◌>>=◌,
}

pub data ServerState : Type 0 where
  idle running down standby hybernated : ServerState

-- simtime_t counts picoseconds.
abbrev pub seconds : ℕ → ℤ
seconds n = pos (n * 1000000000000)

-- The default of a time in a new message, -1 seconds.
abbrev pub unset_time : ℤ
unset_time = negsuc 999999999999

-- `minus_one` is the sentinel of the searches.
abbrev pub minus_one : ℤ
minus_one = negsuc 0

-- SuperComInternalMsg: a job in the queue, in a server's list, or a self-message about one.
pub record Job : Type 0 where
  pub server_index : ℤ
  pub run_time : ℤ
  pub client_address : ℕ
  pub need_memory : ℤ
  pub nodes : ℕ
  pub cores : ℤ
  pub sub_time : ℤ
  pub load : ℤ
  pub input_data : ℤ
  pub loaded_time : ℤ
  pub priority : ℤ
  pub time_of_start : ℤ

-- serverInfo.
pub record Server : Type 0 where
  pub state : ServerState
  pub id : ℕ
  pub memory : ℤ
  pub num_cores : ℤ
  pub cores_in_use : ℤ
  pub jobs : List Job
  pub reserved : Bool
  pub connected : Bool
  pub comp_time : ℤ

-- clientInfo.
pub record Client : Type 0 where
  pub client_address : ℕ
  pub uso_address : ℕ
  pub finished_servers : ℕ
  pub nodes : ℕ
  pub cores : ℤ
  pub need_memory : ℤ
  pub run_time : ℤ
  pub load : ℤ
  pub loaded_time : ℤ
  pub input_data : ℤ
  pub output_data : ℤ
  pub wakeup_nodes : ℕ
  pub needwakeup_nodes : ℕ
  pub server_nmb : List ℤ
  pub job_priority : ℤ
  pub sub_time : ℤ

-- runjobInfo.
pub record RunJob : Type 0 where
  pub nodes : ℕ
  pub need_memory : ℤ
  pub run_time : ℤ
  pub sub_time : ℤ
  pub comp_time : ℤ
  pub start_time : ℤ
  pub client_address : ℕ
  pub cores : ℤ

-- What the module tells its surroundings: the self-messages that it schedules for the current
-- time, and its calls of the statistics and of the network-energy accounting.
pub data Effect : Type 0 where
  init_connection : ℤ → Effect
  wakeup : ℤ → ℕ → Effect
  start_job : ℤ → ℕ → Effect
  sleep : ℤ → ℕ → Effect
  finish_job : ℕ → ℕ → ℤ → Effect
  wait_time : ℤ → Effect
  network_energy : ℤ → Effect

pub record Rms : Type 0 where
  pub servers : List Server
  pub num_servers : ℕ
  pub clients : List Client
  pub running_jobs : List RunJob
  pub job_queue : List Job
  pub queue_time : List ℤ
  pub energy_aware : Bool
  pub federated : Bool
  pub scheduling : ℕ
  pub jobs_completed : ℕ
  pub now : ℤ
  pub effects : List Effect

unfoldable pub lookup_server : List Server → ℤ → Result Server
lookup_server [] n = fault Fault.null_server
lookup_server (s ∷ xs) n = if pos s.id ==ℤ n then ok s else lookup_server xs n

-- A setter writes through the pointer that `lookupServer` returns.
unfoldable pub update_server : List Server → ℤ → (Server → Server) → Result (List Server)
update_server [] n f = fault Fault.null_server
update_server (s ∷ xs) n f =
    let rest = update_server xs n f in
    if pos s.id ==ℤ n then ok (f s ∷ xs) else (rest >>= λ ys. ok (s ∷ ys))

unfoldable pub lookup_client : List Client → ℕ → Result Client
lookup_client [] a = fault Fault.null_client
lookup_client (c ∷ cs) a = if c.client_address == a then ok c else lookup_client cs a

unfoldable pub update_client : List Client → ℕ → (Client → Client) → Result (List Client)
update_client [] a f = fault Fault.null_client
update_client (c ∷ cs) a f =
    let rest = update_client cs a f in
    if c.client_address == a then ok (f c ∷ cs) else (rest >>= λ ds. ok (c ∷ ds))

abbrev pub set_reserved : Bool → Server → Server
set_reserved b s = record s { reserved = b }

abbrev pub add_cores_in_use : ℤ → Server → Server
add_cores_in_use n s = record s { cores_in_use = s.cores_in_use +ℤ n }

-- The states from which a server has to be woken up.
abbrev pub is_asleep : ServerState → Bool
is_asleep down = true
is_asleep standby = true
is_asleep hybernated = true
is_asleep _ = false

abbrev pub is_idle : ServerState → Bool
is_idle idle = true
is_idle _ = false

abbrev pub is_running : ServerState → Bool
is_running running = true
is_running _ = false

-- `scheduleAt` of the current time, or a call that only accounts.
abbrev pub emit : Effect → Rms → Rms
emit e r = record r { effects = r.effects ++ e ∷ [] }

-- addClientInfo.
unfoldable pub add_client_info : Rms → ℕ → Job → Rms
add_client_info r uso j = record r { clients = r.clients ++ client ∷ [] }
  where
    client : Client
    client = record {
      client_address = j.client_address;
      uso_address = uso;
      finished_servers = 0;
      nodes = j.nodes;
      cores = j.cores;
      need_memory = j.need_memory;
      run_time = j.run_time;
      load = j.load;
      loaded_time = j.loaded_time;
      input_data = j.input_data;
      output_data = pos 0;
      wakeup_nodes = 0;
      needwakeup_nodes = 0;
      server_nmb = [];
      job_priority = j.priority;
      sub_time = j.sub_time;
    }

-- deleteClient: the first entry of the address goes.
unfoldable pub delete_client : List Client → ℕ → List Client
delete_client [] a = []
delete_client (c ∷ cs) a = if c.client_address == a then cs else c ∷ delete_client cs a

-- deleteRunjob: likewise.
unfoldable pub delete_runjob : List RunJob → ℕ → List RunJob
delete_runjob [] a = []
delete_runjob (j ∷ js) a = if j.client_address == a then js else j ∷ delete_runjob js a

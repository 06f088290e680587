-- ===== src/Rms/Request.antt =====
-- The request handler of SuperComRmsApp.cc: SuperComRmsAppClientHandler::dataArrived for a request
-- message, and checkQueue.
pub mod Admitted
use cplusplus_projects.Common.{
  ℕ, Bool, true, false, ◌||◌, List, [], ◌∷◌, ℤ, pos, ◌==◌, if◌then◌else◌, Result, ok, ◌>>=◌,
}
use cplusplus_projects.Rms.State.{Job, Rms, unset_time, minus_one, add_client_info}
use cplusplus_projects.Rms.Search.{search_servers}
use cplusplus_projects.Rms.Queue.{is_interactive, enqueue_job}
use cplusplus_projects.Rms.Connect.{init_server_connection}
use cplusplus_projects.Rms.Estimate.{get_estimated_start_time}
use cplusplus_projects.Rms.Dequeue.{with_servers, ends_before_start, check_if_aware}

-- SuperComMsg, what the handler reads of a request.
pub record Request : Type 0 where
  pub uso_address : ℕ
  pub client_address : ℕ
  pub memory : ℤ
  pub run_time : ℤ
  pub nodes : ℕ
  pub cores : ℤ
  pub load : ℤ
  pub input_data : ℤ
  pub loaded_time : ℤ
  pub priority : ℤ

-- The job of a request, submitted now. The handler passes priority 1 on, not the message's.
abbrev pub job_of : Request → ℤ → Job
job_of m now = record {
  server_index = minus_one;
  run_time = m.run_time;
  client_address = m.client_address;
  need_memory = m.memory;
  nodes = m.nodes;
  cores = m.cores;
  sub_time = now;
  load = m.load;
  input_data = m.input_data;
  loaded_time = m.loaded_time;
  priority = pos 1;
  time_of_start = unset_time;
}

abbrev pub put_in_queue : Rms → Job → Rms
put_in_queue r j = record r { job_queue = enqueue_job r.job_queue j }

-- The job is started if the search finds servers, else queued.
unfoldable pub start_or_queue : Rms → Job → Result Rms
start_or_queue r j = do
  f ← search_servers r j.nodes j.need_memory j.cores true
  elim f.found [
    | false ↦ ok (put_in_queue (with_servers r f) j)
    | true ↦ init_server_connection (with_servers r f) f.numbers j
  ]

-- Backfill: behind other jobs it is started only if it ends before the first of them can start.
unfoldable pub start_if_before : Rms → Job → Result Rms
start_if_before r j = do
  f ← search_servers r j.nodes j.need_memory j.cores true
  elim f.found [
    | false ↦ ok (put_in_queue (with_servers r f) j)
    | true ↦ get_estimated_start_time (with_servers r f) >>= λ t.
        if ends_before_start r j t || is_interactive j
        then init_server_connection (with_servers r f) f.numbers j
        else ok (put_in_queue (with_servers r f) j)
  ]

unfoldable pub check_queue : Rms → Job → Result Rms
check_queue r j = elim r.job_queue [
  | [] ↦ start_or_queue r j >>= check_if_aware
  | k ∷ ks ↦
      if r.scheduling == 1
      then (if is_interactive j then start_or_queue r j else ok (put_in_queue r j))
      else start_if_before r j
]

-- MSGKIND_REQUEST: the client is registered before the queue is looked at.
unfoldable pub receive_request : Rms → Request → Result Rms
receive_request r m = let j = job_of m r.now in check_queue (add_client_info r m.uso_address j) j

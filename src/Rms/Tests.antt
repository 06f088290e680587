-- ===== src/Rms/Tests.antt =====
-- A small system, the runs of the code on it, and the theorems applied to it.
pub mod Messages
use cplusplus_projects.Common.{
  ℕ, ◌≡◌, ◌≤◌, ◌≤ℤ◌, refl, true, false, List, [], ◌∷◌, ℤ, pos, ok, All, length, leb, ◌&&◌, ◌&&◌,
  fault, Fault, ltb_ℤ, ◌+ℤ◌, ◌-ℤ◌, arith, inl, inr, ◌⊎◌,
}
use cplusplus_projects.Rms.State.{
  ServerState, Job, Server, Client, Rms, seconds, minus_one, lookup_client, lookup_server,
  update_server,
}
use cplusplus_projects.Rms.Search.{
  Found, Found, search_servers, pick_servers, scan, consider, release_picked,
}
use cplusplus_projects.Rms.Search.Picks.{Picks, count_suits}
use cplusplus_projects.Rms.Search.Outcome.{HasServers, search_servers_lem}
use cplusplus_projects.Rms.Queue.{enqueue_job}
use cplusplus_projects.Rms.Queue.Order.{
  IsOrdered, Inserted, enqueue_job-IsOrdered, enqueue_job-Inserted,
}
use cplusplus_projects.Rms.Connect.{init_server_connection}
use cplusplus_projects.Rms.Connect.Load.{loads, load_of}
use cplusplus_projects.Rms.Connect.Capacity.{IsSound}
use cplusplus_projects.Rms.Connect.Place.{search_then_connect}
use cplusplus_projects.Rms.Estimate.{
  ready_nodes, resting_nodes, collect, running_servers, running_server, busy_server, free_up,
  insert_jobs, insert_job, estimate, get_estimated_start_time,
}
use cplusplus_projects.Rms.Estimate.Bound.{estimate-resting}
use cplusplus_projects.Rms.Estimate.Latest.{Latest, estimate-IsLatest}
use cplusplus_projects.Rms.Estimate.Sure.{IsWide}
use cplusplus_projects.Rms.Sleep.{check_servers}
use cplusplus_projects.Rms.Sleep.Suspended.{Checked}
use cplusplus_projects.Rms.Sleep.Rested.{is_spare, check_servers-Rested}
use cplusplus_projects.Rms.Dequeue.{find_resources, dequeue}
use cplusplus_projects.Rms.Dequeue.Ready.{Ready, Ready-Queued}
use cplusplus_projects.Rms.Dequeue.Fifo.{Served, find_resources-Served}
use cplusplus_projects.Rms.Dequeue.Step.{Skipped, Overtook, first_fit_step_lem}
use cplusplus_projects.Rms.Dequeue.Whole.{Dequeued, dequeue-Dequeued}
use cplusplus_projects.Rms.Request.{Request}
use cplusplus_projects.Rms.Request.Admitted.{Admitted}

-- A server with 8 units of memory.
abbrev server : ℕ → ServerState → ℤ → Server
server i st cores = record {
  state = st;
  id = i;
  memory = pos 8;
  num_cores = cores;
  cores_in_use = pos 0;
  jobs = [];
  reserved = false;
  connected = true;
  comp_time = pos 0;
}

-- A job of client `a` that runs for a minute.
abbrev job : ℕ → ℕ → ℤ → ℤ → Job
job a nodes cores priority = record {
  server_index = pos 0;
  run_time = seconds 60;
  client_address = a;
  need_memory = pos 2;
  nodes = nodes;
  cores = cores;
  sub_time = pos 0;
  load = pos 1;
  input_data = pos 0;
  loaded_time = pos 0;
  priority = priority;
  time_of_start = pos 0;
}

abbrev client : ℕ → ℕ → ℤ → Client
client a nodes cores = record {
  client_address = a;
  uso_address = 100;
  finished_servers = 0;
  nodes = nodes;
  cores = cores;
  need_memory = pos 2;
  run_time = seconds 60;
  load = pos 1;
  loaded_time = pos 0;
  input_data = pos 0;
  output_data = pos 0;
  wakeup_nodes = 0;
  needwakeup_nodes = 0;
  server_nmb = [];
  job_priority = pos 1;
  sub_time = pos 0;
}

-- Two awake servers and one that hibernates; two nodes for client 7, three for client 8.
abbrev servers : List Server
servers =
    server 0 ServerState.idle (pos 4)
    ∷ server 1 ServerState.hybernated (pos 2)
    ∷ server 2 ServerState.idle (pos 2)
    ∷ []

abbrev first_one : Job
first_one = job 7 2 (pos 2) (pos 1)

abbrev second_one : Job
second_one = job 8 3 (pos 2) (pos 1)

abbrev system : Rms
system = record {
  servers = servers;
  num_servers = 3;
  clients = client 7 2 (pos 2) ∷ client 8 3 (pos 2) ∷ [];
  running_jobs = [];
  job_queue = first_one ∷ second_one ∷ [];
  queue_time = [];
  energy_aware = true;
  federated = true;
  scheduling = 1;
  jobs_completed = 0;
  now = seconds 30;
  effects = [];
}

abbrev system_HasServers : HasServers system
system_HasServers = record { numbered = (refl, (refl, (refl, tt))); counted = refl }

abbrev sound_server : (i : ℕ) (st : ServerState) (n : ℕ) → IsSound (load_of (server i st (pos n)))
sound_server i st n = record { accounted = refl; nonneg = omega arith; capacity = omega arith }

abbrev system_sound : All IsSound (loads servers)
system_sound = (
  sound_server 0 ServerState.idle 4,
  (sound_server 1 ServerState.hybernated 2, (sound_server 2 ServerState.idle 2, tt)),
)

abbrev system_wide : All (IsWide (pos 2)) (loads servers)
system_wide = (omega arith, (omega arith, (omega arith, tt)))

abbrev system_Ready : Ready system system.job_queue
unfolding lookup_client
system_Ready = record {
  has_servers = system_HasServers;
  sound = system_sound;
  waiting = (
    (client 7 2 (pos 2), refl, refl, refl, omega arith),
    ((client 8 3 (pos 2), refl, refl, refl, omega arith), tt),
  );
  owners = ((omega arith, tt), (tt, tt));
  wide = (system_wide, (system_wide, tt));
}

-- The servers with the fewest free cores are selected, the awake one first.
search_run :
    search_servers system 2 (pos 2) (pos 2) true
    ≡ ok (record { numbers = pos 2 ∷ pos 1 ∷ []; found = true; servers = servers })
unfolding search_servers pick_servers scan lookup_server consider ◌-ℤ◌ update_server release_picked
search_run = refl

-- Four servers are not there: the last search leaves the sentinel, and nothing stays reserved.
search_short :
    search_servers system 4 (pos 2) (pos 2) true
    ≡ ok (record {
      numbers = pos 2 ∷ pos 1 ∷ pos 0 ∷ minus_one ∷ [];
      found = false;
      servers = servers;
    })
unfolding search_servers pick_servers scan lookup_server consider ◌-ℤ◌ update_server release_picked
search_short = refl

search_servers_lem_example :
    (ns : List ℤ) × (search_servers system 2 (pos 2) (pos 2) true
      ≡ ok (record {
        numbers = ns;
        found = true && leb 2 (count_suits (pos 2) (pos 2) servers);
        servers = servers;
      }))
    × (length ns ≡ 2)
    × (2 ≤ count_suits (pos 2) (pos 2) servers → Picks (pos 2) (pos 2) servers ns)
search_servers_lem_example =
    search_servers_lem system 2 (pos 2) (pos 2) true system_HasServers (omega arith)

find_resources-Served_example : Served system (first_one ∷ second_one ∷ []) (find_resources system)
find_resources-Served_example =
    find_resources-Served system (λ e. absurd cc)
      (Ready-Queued system system.job_queue system_Ready)

search_then_connect_example :
    (f : Found) × (q : Rms) × (search_servers system 2 (pos 2) (pos 2) true ≡ ok f)
    × (f.found ≡ true)
    × (init_server_connection (record system { servers = f.servers }) f.numbers first_one ≡ ok q)
    × All IsSound (loads q.servers)
unfolding ◌-ℤ◌ lookup_client
search_then_connect_example =
    search_then_connect system first_one (client 7 2 (pos 2)) system_HasServers system_sound
      (omega arith) (omega arith) refl refl refl

check_servers-Rested_example :
    (q : Rms) × (check_servers system ≡ ok q)
    × Checked system q
    × (system.job_queue ≡ []
        → ltb_ℤ (seconds 20) system.now ≡ true
        → All (λ s. is_spare s ≡ false) q.servers)
check_servers-Rested_example =
    check_servers-Rested system system_HasServers system_sound (system_wide, (system_wide, tt))

estimate-resting_example : (t : ℤ) × (estimate 2 (pos 2) servers ≡ ok t) × (t ≤ℤ seconds 90)
estimate-resting_example = estimate-resting 2 (pos 2) servers (omega arith) (omega arith)

estimate-IsLatest_example : Latest 2 (pos 2) servers
estimate-IsLatest_example =
    estimate-IsLatest 2 (pos 2) servers (omega arith) system_sound system_wide

-- Two busy servers of two cores, with a job each, and a job that needs four cores on two nodes: the
-- job of the first server is read after it was deleted.
abbrev busy_server_of : ℕ → Server
busy_server_of i = record (server i ServerState.running (pos 2)) {
  cores_in_use = pos 2;
  jobs = job 1 1 (pos 2) (pos 1) ∷ [];
}

reads_freed_job :
    estimate 2 (pos 4) (busy_server_of 0 ∷ busy_server_of 1 ∷ []) ≡ fault Fault.freed_job
unfolding estimate ready_nodes resting_nodes collect running_servers running_server busy_server
    free_up insert_jobs insert_job ◌+ℤ◌ ◌-ℤ◌
reads_freed_job = refl

abbrev waiting_jobs : List Job
waiting_jobs = job 3 1 (pos 1) (pos 0) ∷ job 4 1 (pos 1) (pos 5) ∷ job 5 1 (pos 1) (pos 2) ∷ []

abbrev waiting-IsOrdered : IsOrdered waiting_jobs
waiting-IsOrdered = ((inl refl, (inl refl, tt)), ((inr (refl, omega arith), tt), (tt, tt)))

enqueue_job-IsOrdered_example : IsOrdered (enqueue_job waiting_jobs (job 6 1 (pos 1) (pos 3)))
enqueue_job-IsOrdered_example =
    enqueue_job-IsOrdered waiting_jobs (job 6 1 (pos 1) (pos 3)) waiting-IsOrdered

enqueue_job-Inserted_example :
    Inserted waiting_jobs
      (job 6 1 (pos 1) (pos 3))
      (enqueue_job waiting_jobs (job 6 1 (pos 1) (pos 3)))
enqueue_job-Inserted_example =
    enqueue_job-Inserted waiting_jobs (job 6 1 (pos 1) (pos 3)) waiting-IsOrdered

-- The same system under the backfill by the best job.
abbrev best_fit_system : Rms
best_fit_system = record system { scheduling = 3 }

abbrev best_fit_system_Ready : Ready best_fit_system best_fit_system.job_queue
best_fit_system_Ready = record {
  has_servers = record { numbered = (refl, (refl, (refl, tt))); counted = refl };
  sound = system_sound;
  waiting = system_Ready.waiting;
  owners = system_Ready.owners;
  wide = system_Ready.wide;
}

dequeue-Dequeued_example : Dequeued (first_one ∷ second_one ∷ []) (dequeue best_fit_system)
dequeue-Dequeued_example = dequeue-Dequeued best_fit_system best_fit_system_Ready

abbrev request : Request
request = record {
  uso_address = 100;
  client_address = 9;
  memory = pos 1;
  run_time = seconds 10;
  nodes = 1;
  cores = pos 1;
  load = pos 1;
  input_data = pos 0;
  loaded_time = pos 0;
  priority = pos 0;
}

first_fit_step_lem_example :
    (t : ℤ) × (get_estimated_start_time system ≡ ok t)
    × (Skipped system 1 second_one t ⊎ Overtook system 1 second_one t)
first_fit_step_lem_example = first_fit_step_lem system 1 second_one system_Ready refl

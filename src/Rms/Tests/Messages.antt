-- ===== src/Rms/Tests/Messages.antt =====
-- The message handlers on small systems.
use mathlib.Core.Path.{subst}
use cplusplus_projects.Common.{ℕ, ◌≡◌, refl, true, false, List, [], ◌∷◌, ℤ, pos, arith, ◌+ℤ◌}
use cplusplus_projects.Rms.State.{
  ServerState, Job, Server, Client, Rms, seconds, lookup_client, lookup_server,
}
use cplusplus_projects.Rms.Dequeue.Ready.{Ready}
use cplusplus_projects.Rms.Request.{Request, receive_request}
use cplusplus_projects.Rms.Request.Admitted.{Admitted}
use cplusplus_projects.Rms.Finish.{remove_jobs, receive_finish, receive_wakeup_response}
use cplusplus_projects.Rms.Finish.Jobs.{here}
use cplusplus_projects.Rms.Finish.Handled.{receive_finish-Admitted}
use cplusplus_projects.Rms.Finish.Woken.{receive_wakeup_response-Admitted}
use cplusplus_projects.Rms.Initialize.{Parameters, initialize, create_servers}
use cplusplus_projects.Rms.Run.{Event, request, start, step}
use cplusplus_projects.Rms.Run.Safe.{Reachable-Ready, Reachable-Admitted}

-- A job of client `a` with two cores on one server.
abbrev job : ℕ → ℤ → Job
job a t = record {
  server_index = pos 0;
  run_time = seconds 60;
  client_address = a;
  need_memory = pos 2;
  nodes = 1;
  cores = pos 2;
  sub_time = pos 0;
  load = pos 1;
  input_data = pos 0;
  loaded_time = pos 0;
  priority = pos 1;
  time_of_start = t;
}

abbrev client : ℕ → List ℤ → ℕ → Client
client a ns asleep = record {
  client_address = a;
  uso_address = 100;
  finished_servers = 0;
  nodes = 1;
  cores = pos 2;
  need_memory = pos 2;
  run_time = seconds 60;
  load = pos 1;
  loaded_time = pos 0;
  input_data = pos 0;
  output_data = pos 0;
  wakeup_nodes = 0;
  needwakeup_nodes = asleep;
  server_nmb = ns;
  job_priority = pos 1;
  sub_time = pos 0;
}

-- One server with a job of client 7, and a job of client 8 that waits.
abbrev busy : ServerState → Server
busy st = record {
  state = st;
  id = 0;
  memory = pos 6;
  num_cores = pos 2;
  cores_in_use = pos 2;
  jobs = job 7 (pos 0) ∷ [];
  reserved = false;
  connected = true;
  comp_time = seconds 60;
}

abbrev system : ServerState → ℕ → Rms
system st asleep = record {
  servers = busy st ∷ [];
  num_servers = 1;
  clients = client 7 (pos 0 ∷ []) asleep ∷ client 8 [] 0 ∷ [];
  running_jobs = [];
  job_queue = job 8 (pos 0) ∷ [];
  queue_time = [];
  energy_aware = true;
  federated = true;
  scheduling = 2;
  jobs_completed = 0;
  now = seconds 60;
  effects = [];
}

abbrev system_Ready :
    (st : ServerState) (asleep : ℕ) → Ready (system st asleep) (job 8 (pos 0) ∷ [])
unfolding lookup_client ◌+ℤ◌
system_Ready st asleep = record {
  has_servers = record { numbered = (refl, tt); counted = refl };
  sound = (record { accounted = refl; nonneg = omega arith; capacity = omega arith }, tt);
  waiting = ((client 8 [] 0, refl, refl, refl, omega arith), tt);
  owners = (tt, tt);
  wide = ((omega arith, tt), tt);
}

receive_finish-Admitted_example :
    Admitted
      (system ServerState.running 0).job_queue
      (receive_finish (system ServerState.running 0) (pos 0) 7 (pos 500))
unfolding lookup_client lookup_server
receive_finish-Admitted_example =
    receive_finish-Admitted (system ServerState.running 0) (pos 0) 7 (pos 500)
      (client 7 (pos 0 ∷ []) 0) (busy ServerState.running) (system_Ready ServerState.running 0) refl
      refl (omega arith) (omega arith) (here (job 7 (pos 0)) refl refl tt) (omega arith, tt)
      (omega arith, tt)

receive_wakeup_response-Admitted_example :
    Admitted
      (system ServerState.hybernated 1).job_queue
      (receive_wakeup_response (system ServerState.hybernated 1) 7)
unfolding lookup_client lookup_server
receive_wakeup_response-Admitted_example =
    receive_wakeup_response-Admitted (system ServerState.hybernated 1) 7 (client 7 (pos 0 ∷ []) 1)
      (system_Ready ServerState.hybernated 1) refl refl ((busy ServerState.hybernated, refl), tt)
      (tt, tt) (omega arith, tt)

-- Of two jobs of one client that stand side by side, the second is passed over.
remove_jobs-neighbours :
    remove_jobs 7 false (job 7 (pos 1) ∷ job 7 (pos 2) ∷ job 8 (pos 3) ∷ [])
    ≡ job 7 (pos 2) ∷ job 8 (pos 3) ∷ []
unfolding remove_jobs
remove_jobs-neighbours = refl

abbrev parameters : Parameters
parameters = record {
  num_servers = 2;
  memory = pos 8;
  num_cores = 4;
  energy_aware = true;
  federated = true;
  scheduling = 3;
}

abbrev first_request : Request
first_request = record {
  uso_address = 100;
  client_address = 9;
  memory = pos 1;
  run_time = seconds 10;
  nodes = 2;
  cores = pos 1;
  load = pos 1;
  input_data = pos 0;
  loaded_time = pos 0;
  priority = pos 1;
}

first_event : Event (initialize parameters) (receive_request (initialize parameters) first_request)
unfolding initialize create_servers lookup_client
first_event = request first_request (omega arith) (omega arith, (omega arith, tt)) refl

-- The state that the first request leads to.
after_first :
    Admitted
      (initialize parameters).job_queue
      (receive_request (initialize parameters) first_request)
after_first = Reachable-Admitted parameters (initialize parameters) _ start first_event

Reachable-Ready_example : Ready after_first.final after_first.final.job_queue
Reachable-Ready_example =
    Reachable-Ready parameters after_first.final
      (step start (subst (Event (initialize parameters)) after_first.returns first_event))

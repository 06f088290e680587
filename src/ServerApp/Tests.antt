-- ===== src/ServerApp/Tests.antt =====
-- Runs of a server with one CPU of two cores and two memory sticks.
use cplusplus_projects.Common.{◌≡◌, refl, false, List, [], ◌∷◌, ◌++◌, ℤ, pos, ◌+ℤ◌, arith, ok}
use cplusplus_projects.ServerApp.State.{
  HddState, ServerApp, Parameters, initialize, push, compute_energy, idle_load,
}
use cplusplus_projects.ServerApp.Cores.{allocate_cores, mark_cpu, remove_loaded_time, unload_cores}
use cplusplus_projects.ServerApp.Handle.{Job, complete_of, start_job, receive_request, response}
use cplusplus_projects.ServerApp.Run.{IsProper, at_time, update, start}
use cplusplus_projects.ServerApp.Run.Consistent.{Consistent, Handled}
use cplusplus_projects.ServerApp.Energy.{Charged, Accounted, Reachable-Accounted}
use cplusplus_projects.ServerApp.Undone.{Restored, end_of, response-receive_request}

abbrev parameters : Parameters
parameters = record {
  num_ram_sticks = 2;
  ram_stick_size = 1024;
  ram_loaded = false;
  num_cpus = 1;
  num_cores = 2;
  core_load = idle_load;
  hdd_state = HddState.idle;
  hdd_loaded_time = pos 2_000_000;
  reply_delay = pos 0;
  output_data = pos 200;
}

abbrev job : Job
job = record {
  run_time = pos 7;
  memory = pos 1500;
  cores = pos 2;
  load = pos 40;
  loaded_time = pos 500_000;
  client_address = 3;
}

job-IsProper : IsProper job.cores job.load job.memory
job-IsProper = record {
  some_cores = omega arith;
  some_load = (omega arith, omega arith);
  some_memory = omega arith;
}

Reachable-Accounted_example :
    Charged (initialize parameters)
    × Accounted (initialize parameters) (compute_energy (initialize parameters))
Reachable-Accounted_example = Reachable-Accounted {p = parameters} start update

response-receive_request_example :
    ((start_job 1 job (initialize parameters)).scheduled
      ≡ (initialize parameters).scheduled ++ end_of 1 job (initialize parameters) ∷ [])
    × (u : ServerApp) × (response (pos 0) (complete_of 1 job) (
          at_time
            (initialize parameters).scheduled
            (end_of 1 job (initialize parameters))
            []
            (start_job 1 job (initialize parameters)))
        ≡ ok u)
    × Restored (initialize parameters) u
unfolding initialize push ◌+ℤ◌ receive_request
response-receive_request_example =
    response-receive_request (pos 0) 1 job (initialize parameters)
      (start_job 1 job (initialize parameters)) job-IsProper (omega arith) (omega arith)
      (omega arith) refl tt refl

abbrev idle_cpu : List (List ℤ)
idle_cpu = (idle_load ∷ idle_load ∷ []) ∷ []

two_cores_get_the_load : allocate_cores (pos 40) (pos 2) 0 idle_cpu ≡ (pos 81 ∷ pos 81 ∷ []) ∷ []
unfolding allocate_cores mark_cpu ◌+ℤ◌
two_cores_get_the_load = refl

-- A load of 100 is cut off to 100, and is not found at the end of the job.
full_load_stays :
    unload_cores (pos 100) (pos 2) 0 (allocate_cores (pos 100) (pos 2) 0 idle_cpu)
    ≡ (pos 200 ∷ pos 200 ∷ []) ∷ []
unfolding unload_cores allocate_cores mark_cpu ◌+ℤ◌
full_load_stays = refl

-- Of two jobs with the same loaded time, not next to each other, both entries are removed.
both_times_removed : remove_loaded_time (pos 5) false (pos 5 ∷ pos 7 ∷ pos 5 ∷ []) ≡ pos 7 ∷ []
unfolding remove_loaded_time
both_times_removed = refl

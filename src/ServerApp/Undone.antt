-- ===== src/ServerApp/Undone.antt =====
-- The end of a job undoes its start.
use mathlib.Core.List.{append-nil}
use cplusplus_projects.Common.{
  ℕ, ◌≡◌, refl, ap, sym, ◌∙◌, false, List, [], ◌∷◌, ◌++◌, ℤ, pos, ◌+ℤ◌, ◌-ℤ◌, ◌≤ℤ◌, ◌<ℤ◌, +ℤ_parts,
  -ℤ_parts, eq_of_parts, ltb_ℤ, ◌==ℤ◌, ==ℤ_refl, arith, All, ok,
}
use cplusplus_projects.ServerApp.State.{complete, Scheduled, ServerApp, compute_energy}
use cplusplus_projects.ServerApp.Cores.{job_load, remove_loaded_time}
use cplusplus_projects.ServerApp.Cores.Marked.{count_loads, clamped_load_lem}
use cplusplus_projects.ServerApp.Cores.Undone.{unload_cores-allocate_cores}
use cplusplus_projects.ServerApp.Handle.{
  Job, complete_of, start_job, end_job, receive_request, response,
}
use cplusplus_projects.ServerApp.Run.{IsProper, at_time}
use cplusplus_projects.ServerApp.Outcome.{started, ends}

remove_loaded_time-append :
    (a : ℤ) (xs : List ℤ)
    → All (λ x. (x ==ℤ a) ≡ false) xs
    → remove_loaded_time a false (xs ++ a ∷ []) ≡ xs
unfolding remove_loaded_time
remove_loaded_time-append a [] h = rw (==ℤ_refl a) refl
remove_loaded_time-append a (x ∷ xs) h = rw h.0 (ap (◌∷◌ x) (remove_loaded_time-append a xs h.1))

plus_minus : (a b : ℤ) → a +ℤ b -ℤ b ≡ a
plus_minus a b = eq_of_parts _ _ (omega (arith, +ℤ_parts a b, -ℤ_parts (a +ℤ b) b))

-- What is as it was: the cores, the memory, the jobs, the loaded times and the self-messages.
pub record Restored (s u : ServerApp) : Type 0 where
  pub cpus : u.hardware.cpus ≡ s.hardware.cpus
  pub used_memory : u.used_memory ≡ s.used_memory
  pub running_jobs : u.running_jobs ≡ s.running_jobs
  pub loaded_times : u.loaded_times ≡ s.loaded_times
  pub scheduled : u.scheduled ≡ s.scheduled

-- The self-message that ends the job.
abbrev pub end_of : ℕ → Job → ServerApp → Scheduled
end_of conn j s = record { time = s.now +ℤ j.run_time; message = complete (complete_of conn j) }

end_job-Restored :
    (junk : ℤ) (conn : ℕ) (j : Job) (s : ServerApp)
    → IsProper j.cores j.load j.memory
    → count_loads s.hardware.cpus (job_load j.load) ≡ 0
    → All (λ x. (x ==ℤ j.loaded_time) ≡ false) s.loaded_times
    → Restored s (
        end_job junk
          (complete_of conn j)
          (at_time s.scheduled (end_of conn j s) [] (start_job conn j s)))
unfolding compute_energy
end_job-Restored junk conn j s p cores times = record {
  cpus =
      unload_cores-allocate_cores j.load j.cores 0 s.hardware.cpus
        (clamped_load_lem j.load p.some_load) cores (ground (arith, p.some_cores));
  used_memory = plus_minus s.used_memory j.memory;
  running_jobs = plus_minus s.running_jobs (pos 1);
  loaded_times = remove_loaded_time-append j.loaded_time s.loaded_times times;
  scheduled = append-nil s.scheduled;
}

-- A job with a core, a load from 1 to 99 and no negative memory, which no core has the load of and
-- no other entry the loaded time, on a server with no negative memory or number of jobs and a
-- positive amount of output data: if it is accepted, the message that ends it is scheduled last,
-- and its end succeeds and gives back the cores' loads, the memory in use, the number of jobs, the
-- loaded times and the self-messages as they were.
pub response-receive_request :
    (junk : ℤ) (conn : ℕ) (j : Job) (s t : ServerApp)
    → IsProper j.cores j.load j.memory
    → pos 0 ≤ℤ s.used_memory
    → pos 0 ≤ℤ s.running_jobs
    → pos 0 <ℤ s.output_data
    → count_loads s.hardware.cpus (job_load j.load) ≡ 0
    → All (λ x. (x ==ℤ j.loaded_time) ≡ false) s.loaded_times
    → receive_request conn j s ≡ ok t
    → (t.scheduled ≡ s.scheduled ++ end_of conn j s ∷ [])
      × (u : ServerApp) × (response junk
            (complete_of conn j)
            (at_time s.scheduled (end_of conn j s) [] t)
          ≡ ok u)
      × Restored s u
unfolding compute_energy
response-receive_request junk conn j s t p used jobs output cores times e =
    let f : start_job conn j s ≡ t = started s t conn j e in
    (
      ap (λ v. v.scheduled) (sym f),
      end_job junk (complete_of conn j)
          (at_time s.scheduled (end_of conn j s) [] (start_job conn j s)),
      ap (λ v. response junk (complete_of conn j) (at_time s.scheduled (end_of conn j s) [] v))
            (sym f)
          ∙ ends junk (at_time s.scheduled (end_of conn j s) [] (start_job conn j s))
              (complete_of conn j)
              (ap (λ v. ltb_ℤ v (pos 0)) (plus_minus s.used_memory j.memory) ∙ ground (arith, used))
              (ground (arith, output))
              (ap (λ v. ltb_ℤ v (pos 0)) (plus_minus s.running_jobs (pos 1))
                ∙ ground (arith, jobs)),
      end_job-Restored junk conn j s p cores times,
    )

-- ===== src/ServerApp/Run/Consistent.antt =====
-- In every state of a run the server's books agree with the jobs that run.
use cplusplus_projects.Common.{
  ℕ, zero, suc, ◌≤◌, ◌<◌, ◌≡◌, ◌≢◌, refl, ap, ◌∙◌, false, List, [], ◌∷◌, ℤ, pos, negsuc, ◌+ℤ◌, ◌≤ℤ◌,
  ◌<ℤ◌, +ℤ_parts, eq_of_parts, pos_part, neg_part, ltb_ℤ, ◌==ℤ◌, ◌==◌, if◌then◌else◌, arith, All,
  All-append, Result, ok,
}
use cplusplus_projects.ServerApp.State.{
  HddState, OperationMode, powered_on, Hardware, Internal, complete, Scheduled, ServerApp,
  compute_energy, idle_load, asleep_load, waking_load,
}
use cplusplus_projects.ServerApp.Cores.{allocate_cores}
use cplusplus_projects.ServerApp.Cores.Marked.{count_loads, allocate_cores-at_load}
use cplusplus_projects.ServerApp.Handle.{Job, complete_of, start_job, receive_request}
use cplusplus_projects.ServerApp.Run.{IsProper}
use cplusplus_projects.ServerApp.Run.Totals.{
  total, total-append, job_count, job_memory, job_cores, wakeup_count,
}

abbrev pub ProperMessage : Internal → Type 0
ProperMessage (complete c) = IsProper c.cores c.load c.need_memory
ProperMessage _ = Unit

-- The counts of the jobs that run.
pub record Counted (s : ServerApp) : Type 0 where
  pub running : s.running_jobs ≡ pos (total job_count s.scheduled)
  pub used : s.used_memory ≡ pos (total job_memory s.scheduled)
  pub limit : total job_count s.scheduled ≤ 4
  pub fits : s.used_memory ≤ℤ s.memory
  pub proper : All (λ m. ProperMessage m.message) s.scheduled
  pub output : pos 0 <ℤ s.output_data
  pub delay : pos 0 ≤ℤ s.delay

-- Cores of no load but `l`.
abbrev pub Only : ℤ → List (List ℤ) → Type 0
Only v cpus = (l : ℤ) → (l ==ℤ v) ≡ false → count_loads cpus l ≡ 0

abbrev pub hdd_for : ℕ → HddState
hdd_for n = if n == 0 then HddState.idle else HddState.loaded

-- Powered on, each load but the idle one is that of as many cores as the jobs with it have; or in
-- sleep, or waking up, without a job.
pub data Phase (mode : OperationMode) (h : Hardware) (ms : List Scheduled) : Type 0 where
  awake :
      mode ≡ powered_on
      → total wakeup_count ms ≡ 0
      → ((l : ℤ) → (l ==ℤ idle_load) ≡ false → count_loads h.cpus l ≡ total (job_cores l) ms)
      → h.hdd_state ≡ hdd_for (total job_count ms)
      → Phase mode h ms
  asleep :
      mode ≢ powered_on
      → total wakeup_count ms ≡ 0
      → total job_count ms ≡ 0
      → Only asleep_load h.cpus
      → h.hdd_state ≡ HddState.standby
      → Phase mode h ms
  waking :
      mode ≡ powered_on
      → total wakeup_count ms ≡ 1
      → total job_count ms ≡ 0
      → Only waking_load h.cpus
      → h.hdd_state ≡ HddState.startup
      → Phase mode h ms

pub record Consistent (s : ServerApp) : Type 0 where
  pub counted : Counted s
  pub phase : Phase s.operation_mode s.hardware s.scheduled

-- No fault, and consistent afterwards.
pub record Handled (r : Result ServerApp) : Type 0 where
  pub final : ServerApp
  pub returns : r ≡ ok final
  pub consistent : Consistent final

-- Only a server that is awake has an idle core.
awake_if_idle_core :
    (mode : OperationMode) (h : Hardware) (ms : List Scheduled)
    → Phase mode h ms
    → 0 < count_loads h.cpus idle_load
    → (mode ≡ powered_on)
      × (total wakeup_count ms ≡ 0)
      × ((l : ℤ) → (l ==ℤ idle_load) ≡ false → count_loads h.cpus l ≡ total (job_cores l) ms)
      × (h.hdd_state ≡ hdd_for (total job_count ms))
awake_if_idle_core mode h ms (awake m w c d) some_idle = (m, w, c, d)
awake_if_idle_core mode h ms (asleep m w j o d) some_idle =
    absurd (omega (arith, some_idle, o idle_load refl))
awake_if_idle_core mode h ms (waking m w j o d) some_idle =
    absurd (omega (arith, some_idle, o idle_load refl))

pub parts_of : {a : ℤ} {n : ℕ} → a ≡ pos n → (pos_part a ≡ n) × (neg_part a ≡ 0)
parts_of e = (ap pos_part e, ap neg_part e)

pub pos_of : (a : ℤ) → pos 0 ≤ℤ a → a ≡ pos (pos_part a)
pos_of (pos n) h = refl
pos_of (negsuc n) h = absurd (omega (arith, h))

pub no_neg_part : (a : ℤ) → pos 0 ≤ℤ a → neg_part a ≡ 0
no_neg_part a h = ap neg_part (pos_of a h)

pub loaded_if_jobs : (n : ℕ) → 0 < n → HddState.loaded ≡ hdd_for n
loaded_if_jobs zero h = absurd (omega (arith, h))
loaded_if_jobs (suc n) h = let z : (suc n == 0) ≡ false = ground arith in rw z refl

start_job-Counted :
    (s : ServerApp) (conn : ℕ) (j : Job)
    → Counted s
    → IsProper j.cores j.load j.memory
    → s.running_jobs <ℤ pos 4
    → s.used_memory +ℤ j.memory ≤ℤ s.memory
    → Counted (start_job conn j s)
unfolding compute_energy
start_job-Counted s conn j h p few room =
    let new : Scheduled = record {
      time = s.now +ℤ j.run_time;
      message = complete (complete_of conn j);
    } in
    record {
      running = eq_of_parts _ _ (
          omega (
            arith,
            parts_of h.running,
            total-append job_count s.scheduled (new ∷ []),
            +ℤ_parts s.running_jobs (pos 1),
          ));
      used = eq_of_parts _ _ (
          omega (
            arith,
            parts_of h.used,
            no_neg_part j.memory p.some_memory,
            total-append job_memory s.scheduled (new ∷ []),
            +ℤ_parts s.used_memory j.memory,
          ));
      limit = omega (arith, parts_of h.running, few, total-append job_count s.scheduled (new ∷ []));
      fits = room;
      proper = All-append (λ m. ProperMessage m.message) s.scheduled (new ∷ []) h.proper (p, tt);
      output = h.output;
      delay = h.delay;
    }

start_job-Phase :
    (s : ServerApp) (conn : ℕ) (j : Job)
    → Phase s.operation_mode s.hardware s.scheduled
    → IsProper j.cores j.load j.memory
    → pos_part j.cores ≤ count_loads s.hardware.cpus idle_load
    → Phase
        (start_job conn j s).operation_mode
        (start_job conn j s).hardware
        (start_job conn j s).scheduled
unfolding compute_energy
start_job-Phase s conn j h p room =
    let new : Scheduled = record {
      time = s.now +ℤ j.run_time;
      message = complete (complete_of conn j);
    } in
    let (on, due, loads, disk) = awake_if_idle_core _ _ _ h (omega (arith, p.some_cores, room)) in
    awake on (omega (arith, due, total-append wakeup_count s.scheduled (new ∷ [])))
      (λ l other.
        ap (λ v. count_loads (allocate_cores j.load v 0 s.hardware.cpus) l)
          (pos_of j.cores (omega (arith, p.some_cores)))
        ∙ allocate_cores-at_load j.load (pos_part j.cores) s.hardware.cpus p.some_load
            (omega (arith, p.some_cores)) room l other
        ∙ omega (arith, loads l other, total-append (job_cores l) s.scheduled (new ∷ [])))
      (loaded_if_jobs _ (omega (arith, total-append job_count s.scheduled (new ∷ []))))

pub request-Handled :
    (s : ServerApp) (conn : ℕ) (j : Job)
    → Consistent s
    → IsProper j.cores j.load j.memory
    → pos 0 ≤ℤ j.run_time
    → s.running_jobs <ℤ pos 4
    → s.used_memory +ℤ j.memory ≤ℤ s.memory
    → pos_part j.cores ≤ count_loads s.hardware.cpus idle_load
    → Handled (receive_request conn j s)
unfolding receive_request compute_energy
request-Handled s conn j h p timely few room cores =
    let t1 : ltb_ℤ (pos 4) (s.running_jobs +ℤ pos 1) ≡ false =
      ground (arith, few, +ℤ_parts s.running_jobs (pos 1)) in
    let t3 : ltb_ℤ j.run_time (pos 0) ≡ false = ground (arith, timely) in
    let t2 : ltb_ℤ s.memory (s.used_memory +ℤ j.memory) ≡ false = ground (arith, room) in
    record {
      final = start_job conn j s;
      returns = rw (t1, t3, t2, receive_request) refl;
      consistent = record {
        counted = start_job-Counted s conn j h.counted p few room;
        phase = start_job-Phase s conn j h.phase p cores;
      };
    }

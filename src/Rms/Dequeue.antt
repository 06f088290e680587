-- ===== src/Rms/Dequeue.antt =====
-- findResources, addOptimalJob and dequeue of SuperComRmsApp.cc: jobs of the queue are started in
-- order (scheduling 1), and with backfill by the first (2) or the best (3) job that fits.
pub mod Ready
pub mod Fifo
pub mod Remove
pub mod Pull
pub mod FirstFit
pub mod Optimal
pub mod BestFit
pub mod Whole
pub mod Registered
pub mod Step
use cplusplus_projects.Common.{
  ℕ, zero, suc, Bool, true, false, ◌&&◌, ◌||◌, not, List, [], ◌∷◌, Option, none, some, ℤ, pos, ◌+ℤ◌,
  ltb_ℤ, ltb, ◌==◌, ◌==ℤ◌, if◌then◌else◌, Result, ok, fault, Fault, ◌>>=◌, length, get_elem?,
}
use cplusplus_projects.Rms.State.{Job, Rms, minus_one}
use cplusplus_projects.Rms.Search.{
  Found, Free, search_servers, is_resources_available, calculate_free_resources,
}
use cplusplus_projects.Rms.Queue.{is_interactive, enqueue}
use cplusplus_projects.Rms.Connect.{init_server_connection}
use cplusplus_projects.Rms.Estimate.{get_estimated_start_time}
use cplusplus_projects.Rms.Sleep.{check_servers}

abbrev pub with_servers : Rms → Found → Rms
with_servers r f = record r { servers = f.servers }

-- findResources: jobs are popped and started until none is left or one finds no servers, which
-- goes back to the front.
unfoldable pub find_from : ℕ → Rms → List Job → Result Rms
find_from zero r q = fault Fault.no_fuel
find_from (suc n) r [] = fault Fault.bad_index
find_from (suc n) r (j ∷ js) = do
  f ← search_servers (record r { job_queue = js }) j.nodes j.need_memory j.cores true
  elim f.found [
    | true ↦
        init_server_connection (record r { job_queue = js; servers = f.servers }) f.numbers j
        >>= λ p. elim p.job_queue [ [] ↦ ok p | k ∷ ks ↦ find_from n p (k ∷ ks) ]
    | false ↦ ok (record r { job_queue = enqueue js j true false j.priority; servers = f.servers })
  ]

unfoldable pub find_resources : Rms → Result Rms
find_resources r = find_from (length r.job_queue) r r.job_queue

-- jobQueue.get(index).
unfoldable pub job_at : List Job → ℕ → Result Job
job_at q i = elim (get_elem? q i) [ none ↦ fault Fault.bad_index | some j ↦ ok j ]

-- jobQueue.remove(jobQueue.get(index)).
unfoldable pub remove_at : ℕ → List Job → List Job
remove_at i [] = []
remove_at zero (x ∷ xs) = xs
remove_at (suc i) (x ∷ xs) = x ∷ remove_at i xs

-- The loop's state: the system and the index of the next job.
abbrev pub Cursor : Type 0
Cursor = Rms × ℕ

-- The test `startTime > compTime`.
abbrev pub ends_before_start : Rms → Job → ℤ → Bool
ends_before_start r j t = ltb_ℤ (j.run_time +ℤ r.now) t

-- One round of the backfill by the first job that fits.
unfoldable pub first_fit_step : Rms → ℕ → Result Cursor
first_fit_step r i = do
  j ← job_at r.job_queue i
  f ← search_servers r j.nodes j.need_memory j.cores true
  elim f.found [
    | false ↦ ok (with_servers r f, suc i)
    | true ↦ get_estimated_start_time (with_servers r f) >>= λ t.
        if ends_before_start r j t || is_interactive j
        then (init_server_connection
              (record r { servers = f.servers; job_queue = remove_at i r.job_queue }) f.numbers j
            >>= λ p. ok (p, i))
        else ok (with_servers r f, suc i)
  ]

-- The loop goes on inside the queue, while resources are available.
unfoldable pub goes_on : Rms → ℕ → Result Bool
goes_on r i =
    if length r.job_queue == 0 || i == length r.job_queue
    then ok false
    else is_resources_available r

unfoldable pub first_fit : ℕ → Rms → ℕ → Result Rms
first_fit zero r i = fault Fault.no_fuel
first_fit (suc n) r i = do
  c ← first_fit_step r i
  more ← goes_on c.0 c.1
  elim more [ true ↦ first_fit n c.0 c.1 | false ↦ ok c.0 ]

-- optjobInfo: the free resources, -1 at first, and what addOptimalJob stores.
pub record OptJob : Type 0 where
  pub free : Free
  pub choice : Option (ℕ × Job × List ℤ)

abbrev pub no_opt_job : OptJob
no_opt_job = record {
  free = record { free_nodes = minus_one; free_memory = minus_one; free_cores = minus_one };
  choice = none;
}

abbrev pub add_optimal_job : ℕ → Job → List ℤ → Free → OptJob
add_optimal_job i j ns f = record { free = f; choice = some (i, j, ns) }

-- Fewer free nodes, then fewer free cores, then less free memory.
abbrev pub is_better : Free → Free → Bool
is_better f g =
    (ltb_ℤ f.free_nodes g.free_nodes || (g.free_nodes ==ℤ minus_one))
    || ((f.free_nodes ==ℤ g.free_nodes)
        && ((ltb_ℤ f.free_cores g.free_cores || (g.free_cores ==ℤ minus_one))
            || ((f.free_cores ==ℤ g.free_cores)
                && (ltb_ℤ f.free_memory g.free_memory || (g.free_memory ==ℤ minus_one)))))

-- The variables of the best-fit search over the queue.
pub record Best : Type 0 where
  pub rms : Rms
  pub index : ℕ
  pub opt : OptJob
  pub job_found : Bool
  pub interactive_found : Bool

abbrev pub no_free : Free
no_free = record { free_nodes = pos 0; free_memory = pos 0; free_cores = pos 0 }

-- A job that fits before the first one: the better of it and the optimal job is kept.
unfoldable pub compare_job : Best → Job → List ℤ → Result Best
compare_job b j ns = do
  f ← calculate_free_resources b.rms j.nodes j.need_memory j.cores no_free
  ok (record b {
    index = suc b.index;
    job_found = true;
    opt = if is_better f b.opt.free then add_optimal_job b.index j ns f else b.opt;
  })

-- One round of the inner loop of the backfill by the best job that fits.
unfoldable pub best_fit_step : Best → Result Best
best_fit_step b = do
  j ← job_at b.rms.job_queue b.index
  f ← search_servers b.rms j.nodes j.need_memory j.cores true
  elim f.found [
    | false ↦ ok (record b { rms = with_servers b.rms f; index = suc b.index })
    | true ↦ get_estimated_start_time (with_servers b.rms f) >>= λ t.
        if ends_before_start b.rms j t && not (is_interactive j)
        then compare_job (record b { rms = with_servers b.rms f }) j f.numbers
        else (if is_interactive j
            then (init_server_connection
                  (record b.rms {
                    servers = f.servers;
                    job_queue = remove_at b.index b.rms.job_queue;
                  })
                  f.numbers j
                >>= λ p. ok (record b { rms = p; job_found = true; interactive_found = true }))
            else ok (record b { rms = with_servers b.rms f; index = suc b.index }))
  ]

unfoldable pub best_fit_scan : ℕ → Best → Result Best
best_fit_scan zero b = fault Fault.no_fuel
best_fit_scan (suc n) b = do
  c ← best_fit_step b
  elim (length c.rms.job_queue == 0 || c.index == length c.rms.job_queue) [
    | true ↦ ok c
    | false ↦ best_fit_scan n c
  ]

-- After the scan: unless an interactive job was started, the optimal job is, and leaves the queue.
unfoldable pub start_optimal : Best → Result Rms
start_optimal b = if b.interactive_found then ok b.rms else elim b.opt.choice [
  | none ↦ fault Fault.bad_index
  | some (i, j, ns) ↦ init_server_connection b.rms ns j >>= λ p.
      ok (record p { job_queue = remove_at i p.job_queue })
]

unfoldable pub best_fit : ℕ → Rms → Result Rms
best_fit zero r = fault Fault.no_fuel
best_fit (suc n) r = do
  b ← best_fit_scan (length r.job_queue) (record {
    rms = r;
    index = 1;
    opt = no_opt_job;
    job_found = false;
    interactive_found = false;
  })
  elim b.job_found [
    | false ↦ ok b.rms
    | true ↦ start_optimal b >>= λ p. is_resources_available p >>= λ free.
        elim (free && ltb 1 (length p.job_queue)) [ true ↦ best_fit n p | false ↦ ok p ]
  ]

abbrev pub check_if_aware : Rms → Result Rms
check_if_aware r = if r.energy_aware then check_servers r else ok r

-- A backfill looks at the queue only behind the first job, and only then are idle servers
-- suspended.
unfoldable pub backfill : (ℕ → Rms → Result Rms) → Rms → Result Rms
backfill fit p =
    if ltb 1 (length p.job_queue) then (fit (length p.job_queue) p >>= check_if_aware) else ok p

-- The three cases are an `if` each in the source.
unfoldable pub dequeue : Rms → Result Rms
dequeue r = elim r.job_queue [
  | [] ↦ check_if_aware r
  | j ∷ js ↦
      if r.scheduling == 1
      then (find_resources r >>= check_if_aware)
      else (if r.scheduling == 2
          then (find_resources r >>= backfill (λ n p. first_fit n p 1))
          else (if r.scheduling == 3 then (find_resources r >>= backfill best_fit) else ok r))
]

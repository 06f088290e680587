-- ===== src/Rms/Estimate.antt =====
-- getEstimatedStartTime of SuperComRmsApp.cc: when the first job of the queue could start.
pub mod Bound
pub mod Latest
pub mod Sure
use cplusplus_projects.Common.{
  ℕ, suc, Bool, true, false, ◌&&◌, ◌||◌, not, List, [], ◌∷◌, ◌++◌, ℤ, pos, ◌+ℤ◌, ◌-ℤ◌, ltb_ℤ, leb_ℤ,
  ltb, ◌==◌, if◌then◌else◌, Result, ok, fault, Fault, ◌>>=◌,
}
use cplusplus_projects.Rms.State.{
  ServerState, standby, hybernated, Job, Server, Rms, seconds, is_idle, is_running,
}
use cplusplus_projects.Rms.Search.{available}

abbrev pub is_standby : ServerState → Bool
is_standby standby = true
is_standby _ = false

abbrev pub is_hybernated : ServerState → Bool
is_hybernated hybernated = true
is_hybernated _ = false

-- availableNodes and compTime.
pub record Nodes : Type 0 where
  pub available_nodes : ℕ
  pub comp_time : List ℤ

abbrev pub add_node : ℤ → Nodes → Nodes
add_node t a = record { available_nodes = suc a.available_nodes; comp_time = a.comp_time ++ t ∷ [] }

-- Steps 1 to 3: the servers of one state, each ready at time `t`, until there are enough.
unfoldable pub collect : (ServerState → Bool) → ℤ → ℕ → List Server → Nodes → Nodes
collect test t nodes [] a = a
collect test t nodes (s ∷ xs) a = elim (test s.state) [
  | true ↦ elim (suc a.available_nodes == nodes) [
    | true ↦ add_node t a
    | false ↦ collect test t nodes xs (add_node t a)
  ]
  | false ↦ collect test t nodes xs a
]

abbrev pub when_short : ℕ → Nodes → Nodes → Nodes
when_short nodes a b = if ltb a.available_nodes nodes then b else a

abbrev pub ends_at : Job → ℤ
ends_at j = j.time_of_start +ℤ j.run_time

-- serverJobComptime: 0 for a server that is not running.
abbrev pub job_comp_time : Server → Job → ℤ
job_comp_time s j =
    if is_running s.state && not s.reserved
    then ends_at j
    else (if is_running s.state && s.reserved then ends_at j +ℤ seconds 90 else pos 0)

-- A job is put before the first one of tempJobList that ends later.
unfoldable pub insert_job : ℤ → Job → List Job → List Job
insert_job t j [] = j ∷ []
insert_job t j (x ∷ xs) = if ltb_ℤ t (ends_at x) then j ∷ x ∷ xs else x ∷ insert_job t j xs

unfoldable pub insert_jobs : Server → List Job → List Job → List Job
insert_jobs s [] temp = temp
insert_jobs s (j ∷ js) temp = insert_jobs s js (insert_job (job_comp_time s j) j temp)

-- tempJobList and serverCompTime, which the loop over the servers carries along.
pub record Temp : Type 0 where
  pub temp_jobs : List Job
  pub server_times : List ℤ

-- Jobs end one by one until the server has the cores; then tempJobList is cleared. If they never
-- suffice, it keeps the jobs of this server.
unfoldable pub free_up : ℤ → List Job → ℤ → ℤ → Temp → Temp
free_up cores [] have start t = t
free_up cores (j ∷ js) have start t = elim (leb_ℤ cores (have +ℤ j.cores)) [
  | true ↦ record {
    temp_jobs = [];
    server_times = t.server_times ++ (start +ℤ (ends_at j -ℤ start)) ∷ [];
  }
  | false ↦ free_up cores js (have +ℤ j.cores) (start +ℤ (ends_at j -ℤ start)) t
]

-- What tempJobList holds of an earlier server are messages of a copy of its queue, which was
-- destroyed with them: the first of them is read at the next server that lacks cores.
unfoldable pub busy_server : ℤ → Server → Temp → Result Temp
busy_server cores s t = elim t.temp_jobs [
  | [] ↦ ok (
      let all = insert_jobs s s.jobs [] in
      free_up cores all (available s) (pos 0) (record t { temp_jobs = all }))
  | j ∷ js ↦ fault Fault.freed_job
]

-- Step 4 at one server that is running or reserved.
unfoldable pub running_server : ℤ → Server → Temp → Result Temp
running_server cores s t =
    if leb_ℤ cores (available s)
    then ok (
        if is_running s.state
        then record t {
          server_times = t.server_times ++ (if s.reserved then seconds 90 else pos 0) ∷ [];
        }
        else t)
    else busy_server cores s t

unfoldable pub running_servers : ℤ → List Server → Temp → Result Temp
running_servers cores [] t = ok t
running_servers cores (s ∷ xs) t =
    (if is_running s.state || s.reserved then running_server cores s t else ok t)
    >>= running_servers cores xs

-- std::sort on times.
unfoldable pub insert_time : ℤ → List ℤ → List ℤ
insert_time t [] = t ∷ []
insert_time t (x ∷ xs) = if leb_ℤ t x then t ∷ x ∷ xs else x ∷ insert_time t xs

unfoldable pub sort_times : List ℤ → List ℤ
sort_times [] = []
sort_times (t ∷ ts) = insert_time t (sort_times ts)

-- The sorted serverCompTime is added to compTime until there are enough nodes.
unfoldable pub add_times : ℕ → List ℤ → Nodes → Nodes
add_times nodes [] a = a
add_times nodes (t ∷ ts) a = elim (suc a.available_nodes == nodes) [
  | true ↦ add_node t a
  | false ↦ add_times nodes ts (add_node t a)
]

-- The last loop, over the sorted compTime.
unfoldable pub walk_times : ℕ → ℕ → ℤ → List ℤ → ℤ
walk_times nodes needed start [] = start
walk_times nodes needed start (t ∷ ts) = elim (suc needed == nodes) [
  | true ↦ start +ℤ (t -ℤ start)
  | false ↦ walk_times nodes (suc needed) (start +ℤ (t -ℤ start)) ts
]

-- Steps 1 to 3.
unfoldable pub resting_nodes : ℕ → List Server → Nodes
resting_nodes nodes xs =
    let a = collect is_idle (pos 0) nodes xs (record { available_nodes = 0; comp_time = [] }) in
    let b = when_short nodes a (collect is_standby (seconds 5) nodes xs a) in
    when_short nodes b (collect is_hybernated (seconds 90) nodes xs b)

abbrev pub no_temp : Temp
no_temp = record { temp_jobs = []; server_times = [] }

-- Steps 1 to 4.
unfoldable pub ready_nodes : ℕ → ℤ → List Server → Result Nodes
ready_nodes nodes cores xs =
    let a = resting_nodes nodes xs in
    if ltb a.available_nodes nodes
    then (running_servers cores xs no_temp >>= λ t.
        ok (add_times nodes (sort_times t.server_times) a))
    else ok a

unfoldable pub estimate : ℕ → ℤ → List Server → Result ℤ
estimate nodes cores xs =
    ready_nodes nodes cores xs >>= λ a. ok (walk_times nodes 0 (pos 0) (sort_times a.comp_time))

unfoldable pub first_job : List Job → Result Job
first_job [] = fault Fault.bad_index
first_job (j ∷ js) = ok j

unfoldable pub get_estimated_start_time : Rms → Result ℤ
get_estimated_start_time r = do j ← first_job r.job_queue; estimate j.nodes j.cores r.servers

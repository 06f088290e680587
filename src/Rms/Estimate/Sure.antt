-- ===== src/Rms/Estimate/Sure.antt =====
-- When getEstimatedStartTime reads no freed message: no server is too small for the first job.
use cplusplus_projects.Common.{
  ℕ, ◌≡◌, refl, ap, ◌∙◌, false, ◌||◌, List, [], ◌∷◌, ◌++◌, map, if◌then◌else◌, ℤ, pos, ◌+ℤ◌, ◌≤ℤ◌,
  leb_ℤ, ltb_ℤ, ltb, ok, pos_part, neg_part, arith, Bool-cases, inl, inr, All, +ℤ_parts, -ℤ_parts,
  eq_of_parts,
}
use cplusplus_projects.Rms.State.{Job, Server, is_running, seconds}
use cplusplus_projects.Rms.Search.{available}
use cplusplus_projects.Rms.Connect.Load.{Load, load_of, loads}
use cplusplus_projects.Rms.Connect.Capacity.{IsSound, sum_cores}
use cplusplus_projects.Rms.Estimate.{
  Nodes, Temp, no_temp, ends_at, job_comp_time, insert_job, insert_jobs, free_up, busy_server,
  running_server, running_servers, resting_nodes, ready_nodes, estimate, add_times, sort_times,
  walk_times,
}

-- A job that the server has the cores for, when it runs nothing else.
abbrev pub IsWide : ℤ → Load → Type 0
IsWide cores l = cores ≤ℤ l.num_cores

-- No server is too small for any of the jobs.
abbrev pub AllWide : List Load → List Job → Type 0
AllWide ls q = All (λ j. All (IsWide j.cores) ls) q

module _ (f : Load → Load) (keeps : (l : Load) → (f l).num_cores ≡ l.num_cores) where
  pub IsWide-map : (c : ℤ) (ls : List Load) → All (IsWide c) ls → All (IsWide c) (map f ls)
  IsWide-map c [] h = tt
  IsWide-map c (l ∷ ls) h = (rw (keeps l) h.0, IsWide-map c ls h.1)

pub AllWide-each :
    (ls ms : List Load) (q : List Job)
    → ((c : ℤ) → All (IsWide c) ls → All (IsWide c) ms)
    → AllWide ls q
    → AllWide ms q
AllWide-each ls ms [] f h = tt
AllWide-each ls ms (j ∷ q) f h = (f j.cores h.0, AllWide-each ls ms q f h.1)

sum_cores-insert_job :
    (t : ℤ) (j : Job) (js : List Job) → sum_cores (insert_job t j js) ≡ j.cores +ℤ sum_cores js
unfolding insert_job
sum_cores-insert_job t j [] = refl
sum_cores-insert_job t j (x ∷ js) = elim (Bool-cases (ltb_ℤ t (ends_at x))) [
  | inl before ↦ rw before refl
  | inr after ↦
      rw (after, sum_cores-insert_job t j js)
        (eq_of_parts _ _ (
          omega (
            arith,
            +ℤ_parts x.cores (j.cores +ℤ sum_cores js),
            +ℤ_parts j.cores (sum_cores js),
            +ℤ_parts j.cores (x.cores +ℤ sum_cores js),
            +ℤ_parts x.cores (sum_cores js),
          )))
]

sum_cores-insert_jobs :
    (s : Server) (js temp : List Job)
    → sum_cores (insert_jobs s js temp) ≡ sum_cores js +ℤ sum_cores temp
unfolding insert_jobs
sum_cores-insert_jobs s [] temp = eq_of_parts _ _ (omega (arith, +ℤ_parts (pos 0) (sum_cores temp)))
sum_cores-insert_jobs s (j ∷ js) temp =
    sum_cores-insert_jobs s js (insert_job (job_comp_time s j) j temp)
    ∙ ap (λ n. sum_cores js +ℤ n) (sum_cores-insert_job (job_comp_time s j) j temp)
    ∙ eq_of_parts _ _ (
        omega (
          arith,
          +ℤ_parts (sum_cores js) (j.cores +ℤ sum_cores temp),
          +ℤ_parts j.cores (sum_cores temp),
          +ℤ_parts (j.cores +ℤ sum_cores js) (sum_cores temp),
          +ℤ_parts j.cores (sum_cores js),
        ))

-- Jobs that hold enough cores free them, and the list of jobs is cleared.
free_up_clears :
    (cores : ℤ) (js : List Job) (have start : ℤ) (t : Temp)
    → leb_ℤ cores have ≡ false
    → cores ≤ℤ have +ℤ sum_cores js
    → (free_up cores js have start t).temp_jobs ≡ []
unfolding free_up
free_up_clears cores [] have start t short enough = absurd (ground (arith, +ℤ_parts have (pos 0)))
free_up_clears cores (j ∷ js) have start t short enough =
    elim (Bool-cases (leb_ℤ cores (have +ℤ j.cores))) [
      | inl now ↦ rw (now, free_up) refl
      | inr later ↦
          rw (later, free_up)
            (free_up_clears cores js (have +ℤ j.cores) _ t later (
              omega (
                arith,
                enough,
                +ℤ_parts have (j.cores +ℤ sum_cores js),
                +ℤ_parts j.cores (sum_cores js),
                +ℤ_parts (have +ℤ j.cores) (sum_cores js),
                +ℤ_parts have j.cores,
              )))
    ]

busy_server_clears :
    (cores : ℤ) (s : Server) (t : Temp)
    → IsSound (load_of s)
    → cores ≤ℤ s.num_cores
    → leb_ℤ cores (available s) ≡ false
    → t.temp_jobs ≡ []
    → (u : Temp) × (busy_server cores s t ≡ ok u) × (u.temp_jobs ≡ [])
unfolding busy_server
busy_server_clears cores s t sound wide short none_left =
    let all = insert_jobs s s.jobs [] in
    let total = sum_cores-insert_jobs s s.jobs [] in
    (
      free_up cores all (available s) (pos 0) (record t { temp_jobs = all }),
      rw none_left refl,
      free_up_clears cores all (available s) (pos 0) (record t { temp_jobs = all }) short
          (rw total (
            omega (
              arith,
              wide,
              +ℤ_parts (available s) (sum_cores s.jobs +ℤ pos 0),
              +ℤ_parts (sum_cores s.jobs) (pos 0),
              -ℤ_parts s.num_cores s.cores_in_use,
              ap pos_part sound.accounted,
              ap neg_part sound.accounted,
            ))),
    )

running_server_clears :
    (cores : ℤ) (s : Server) (t : Temp)
    → IsSound (load_of s)
    → cores ≤ℤ s.num_cores
    → t.temp_jobs ≡ []
    → (u : Temp) × (running_server cores s t ≡ ok u) × (u.temp_jobs ≡ [])
unfolding running_server
running_server_clears cores s t sound wide none_left =
    elim (Bool-cases (leb_ℤ cores (available s))) [
      | inl enough ↦ elim (Bool-cases (is_running s.state)) [
        | inl runs ↦ (
          record t {
            server_times = t.server_times ++ (if s.reserved then seconds 90 else pos 0) ∷ [];
          },
          rw (enough, runs) refl,
          none_left,
        )
        | inr rests ↦ (t, rw (enough, rests) refl, none_left)
      ]
      | inr short ↦
          let (u, e, cleared) = busy_server_clears cores s t sound wide short none_left in
          (u, rw short e, cleared)
    ]

running_servers_total :
    (cores : ℤ) (xs : List Server) (t : Temp)
    → All IsSound (loads xs)
    → All (IsWide cores) (loads xs)
    → t.temp_jobs ≡ []
    → (u : Temp) × (running_servers cores xs t ≡ ok u)
unfolding running_servers
running_servers_total cores [] t sound wide none_left = (t, refl)
running_servers_total cores (s ∷ xs) t sound wide none_left =
    elim (Bool-cases (is_running s.state || s.reserved)) [
      | inl used ↦
          let (u, e, cleared) = running_server_clears cores s t sound.0 wide.0 none_left in
          let (v, rest) = running_servers_total cores xs u sound.1 wide.1 cleared in
          (v, rw (used, e) rest)
      | inr unused ↦
          let (v, rest) = running_servers_total cores xs t sound.1 wide.1 none_left in
          (v, rw unused rest)
    ]

pub ready_nodes_total :
    (nodes : ℕ) (cores : ℤ) (xs : List Server)
    → All IsSound (loads xs)
    → All (IsWide cores) (loads xs)
    → (a : Nodes) × (ready_nodes nodes cores xs ≡ ok a)
unfolding ready_nodes
ready_nodes_total nodes cores xs sound wide =
    elim (Bool-cases (ltb (resting_nodes nodes xs).available_nodes nodes)) [
      | inl short ↦
          let (t, e) = running_servers_total cores xs no_temp sound wide refl in
          (add_times nodes (sort_times t.server_times) (resting_nodes nodes xs), rw (short, e) refl)
      | inr enough ↦ (resting_nodes nodes xs, rw enough refl)
    ]

-- No message is read after it was deleted.
pub estimate_total :
    (nodes : ℕ) (cores : ℤ) (xs : List Server)
    → All IsSound (loads xs)
    → All (IsWide cores) (loads xs)
    → (t : ℤ) × (estimate nodes cores xs ≡ ok t)
unfolding estimate
estimate_total nodes cores xs sound wide =
    let (a, e) = ready_nodes_total nodes cores xs sound wide in
    (walk_times nodes 0 (pos 0) (sort_times a.comp_time), rw e refl)

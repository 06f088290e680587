-- ===== src/Rms/Dequeue/Step.antt =====
-- What one round of the backfill by the first job that fits does.
use cplusplus_projects.Common.{
  ℕ, suc, ◌≡◌, ◌⊎◌, inl, inr, Bool, true, false, ◌||◌, List, some, ℤ, ok, arith, Bool-cases,
  get_elem?, get_elem?-lt,
}
use cplusplus_projects.Rms.State.{Job, Rms}
use cplusplus_projects.Rms.Search.{search_servers}
use cplusplus_projects.Rms.Queue.{is_interactive}
use cplusplus_projects.Rms.Connect.{init_server_connection}
use cplusplus_projects.Rms.Estimate.{get_estimated_start_time}
use cplusplus_projects.Rms.Dequeue.{remove_at, ends_before_start, first_fit_step}
use cplusplus_projects.Rms.Dequeue.Ready.{Ready, fits, found_at}
use cplusplus_projects.Rms.Dequeue.Pull.{pull, get_estimated_start_time_total}
use cplusplus_projects.Rms.Dequeue.FirstFit.{step_unfit, step_late, step_starts}

-- The job may go before the first one: it ends before that one can start, or it is interactive.
abbrev pub MayOvertake : Rms → Job → ℤ → Bool → Type 0
MayOvertake r j t b = (ends_before_start r j t || is_interactive j) ≡ b

-- The job was left where it is, and why.
abbrev pub Skipped : Rms → ℕ → Job → ℤ → Type 0
Skipped r i j t =
    (first_fit_step r i ≡ ok (r, suc i)) × ((fits r j ≡ false) ⊎ MayOvertake r j t false)

-- The job was started on the servers that the search found, and left the queue.
abbrev pub Overtook : Rms → ℕ → Job → ℤ → Type 0
Overtook r i j t =
    (p : Rms) × (ns : List ℤ) × (first_fit_step r i ≡ ok (p, i))
    × (fits r j ≡ true)
    × MayOvertake r j t true
    × (search_servers r j.nodes j.need_memory j.cores true ≡ ok (found_at r j ns))
    × (init_server_connection (record r { job_queue = remove_at i r.job_queue }) ns j ≡ ok p)
    × (p.job_queue ≡ remove_at i r.job_queue)

-- In a state that is ready for its queue, a round of the first-fit backfill at a job of the queue
-- takes the estimated start of the first job. It starts the job and takes it out of the queue
-- exactly when enough servers suit it and it ends before that start or is interactive; otherwise
-- nothing changes and the next job's turn comes.
pub first_fit_step_lem :
    (r : Rms) (i : ℕ) (j : Job)
    → Ready r r.job_queue
    → get_elem? r.job_queue i ≡ some j
    → (t : ℤ) × (get_estimated_start_time r ≡ ok t) × (Skipped r i j t ⊎ Overtook r i j t)
first_fit_step_lem r i j h there =
    let (ns, search, start) = pull r i j h there in
    let inside = get_elem?-lt r.job_queue i there in
    let (t, e) = get_estimated_start_time_total r h (omega (arith, inside)) in
    (
      t,
      e,
      elim (Bool-cases (fits r j)) [
        | inr unfit ↦ inl (step_unfit r i j ns there search unfit, inl unfit)
        | inl fit ↦ elim (Bool-cases (ends_before_start r j t || is_interactive j)) [
          | inr late ↦ inl (step_late r i j ns there search t fit e late, inr late)
          | inl early ↦
              let (p, u, same, h') = start fit in
              inr (
                p,
                ns,
                step_starts r i j ns there search t p fit e early u,
                fit,
                early,
                search,
                u,
                same,
              )
        ]
      ],
    )

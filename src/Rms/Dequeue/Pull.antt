-- ===== src/Rms/Dequeue/Pull.antt =====
-- A job out of the middle of the queue is looked at and started; the tests around it return.
use mathlib.Core.Path.{subst}
use cplusplus_projects.Common.{
  ℕ, zero, suc, ◌+◌, ◌<◌, ◌≡◌, refl, sym, ◌∙◌, Bool, true, false, ◌||◌, List, [], ◌∷◌, some, ℤ, pos,
  ok, ltb_ℤ, ◌-ℤ◌, ◌*ℤ◌, arith, Bool-cases, inl, inr, length, get_elem?, get_elem?-some,
}
use cplusplus_projects.Rms.State.{Job, Server, Rms, is_idle, is_asleep}
use cplusplus_projects.Rms.Numbered.{Numbered, lookup_server-get}
use cplusplus_projects.Rms.Search.{
  Free, available, search_servers, scan_available, is_resources_available, add_free, sum_free,
  calculate_free_resources,
}
use cplusplus_projects.Rms.Search.Outcome.{HasServers}
use cplusplus_projects.Rms.Connect.{init_server_connection}
use cplusplus_projects.Rms.Estimate.{get_estimated_start_time}
use cplusplus_projects.Rms.Connect.Load.{loads}
use cplusplus_projects.Rms.Estimate.Sure.{AllWide, estimate_total}
use cplusplus_projects.Rms.Estimate.Bound.{get_estimated_start_time-cons}
use cplusplus_projects.Rms.Dequeue.{remove_at, job_at}
use cplusplus_projects.Rms.Dequeue.Ready.{
  Ready, fits, found_at, attempt, Started-Ready, HasServers-queue,
}
use cplusplus_projects.Rms.Dequeue.Remove.{
  All-get, All-Sublist, HasOwners-Sublist, others-remove_at, remove_at-Sublist,
}

pub search_servers-queue :
    (r : Rms) (q : List Job) (nodes : ℕ) (mem cores : ℤ) (found : Bool)
    → search_servers (record r { job_queue = q }) nodes mem cores found
      ≡ search_servers r nodes mem cores found
unfolding search_servers
search_servers-queue r q nodes mem cores found = refl

pub job_at-some : (q : List Job) (i : ℕ) (j : Job) → get_elem? q i ≡ some j → job_at q i ≡ ok j
unfolding job_at
job_at-some q i j g = rw (g, job_at) refl

-- The job at one place of a ready queue is searched for, and started if it fits.
pub pull :
    (r : Rms) (i : ℕ) (j : Job)
    → Ready r r.job_queue
    → get_elem? r.job_queue i ≡ some j
    → (ns : List ℤ) × (search_servers r j.nodes j.need_memory j.cores true ≡ ok (found_at r j ns))
      × (fits r j ≡ true
          → (p : Rms) × (init_server_connection
                (record r { job_queue = remove_at i r.job_queue })
                ns
                j
              ≡ ok p)
            × (p.job_queue ≡ remove_at i r.job_queue)
            × Ready p p.job_queue)
pull r i j h g =
    let q = remove_at i r.job_queue in
    let sub = remove_at-Sublist i r.job_queue in
    let (ns, e, start) =
      attempt (record r { job_queue = q }) j (HasServers-queue r q h.has_servers) h.sound
        (All-get _ r.job_queue i j h.waiting g) in
    (
      ns,
      sym (search_servers-queue r q j.nodes j.need_memory j.cores true) ∙ e,
      λ does.
          let (p, u, s) = start does in
          let after =
            Started-Ready (record r { job_queue = q }) p j q s
              (others-remove_at r.job_queue i j h.owners g) (All-Sublist _ sub h.waiting)
              (HasOwners-Sublist sub h.owners) (All-Sublist _ sub h.wide) in
          (p, u, s.frame.same_queue, subst (Ready p) (sym s.frame.same_queue) after),
    )

-- The estimate for a queue that has a job.
pub get_estimated_start_time_total :
    (r : Rms)
    → Ready r r.job_queue
    → 0 < length r.job_queue
    → (t : ℤ) × (get_estimated_start_time r ≡ ok t)
get_estimated_start_time_total r h l = from r.job_queue refl l
  where
    from :
        (q : List Job)
        → r.job_queue ≡ q
        → 0 < length q
        → (t : ℤ) × (get_estimated_start_time r ≡ ok t)
    from [] e l' = absurd (omega arith)
    from (j ∷ js) e l' =
        let (t, u) =
          estimate_total j.nodes j.cores r.servers h.sound
            (subst (AllWide (loads r.servers)) e h.wide).0 in
        (t, get_estimated_start_time-cons r j js e ∙ u)

scan_available_total :
    (xs : List Server) (n i : ℕ)
    → Numbered 0 xs
    → i + n ≡ length xs
    → (b : Bool) × (scan_available xs n i ≡ ok b)
unfolding scan_available
scan_available_total xs zero i h l = (false, refl)
scan_available_total xs (suc n) i h l =
    let (s, g) = get_elem?-some xs i (omega arith) in
    let e = lookup_server-get 0 i i xs s h (omega arith) g in
    elim (Bool-cases (is_idle s.state || is_asleep s.state || ltb_ℤ (pos 0) (available s))) [
      | inl free ↦ (true, rw (e, free) refl)
      | inr busy ↦
          let (b, u) = scan_available_total xs n (suc i) h (omega arith) in (b, rw (e, busy) u)
    ]

pub is_resources_available_total :
    (r : Rms) → HasServers r → (b : Bool) × (is_resources_available r ≡ ok b)
unfolding is_resources_available
is_resources_available_total r h =
    scan_available_total r.servers r.num_servers 0 h.numbered (omega (arith, h.counted))

sum_free_total :
    (cores : ℤ) (xs : List Server) (n i : ℕ) (f : Free)
    → Numbered 0 xs
    → i + n ≡ length xs
    → (g : Free) × (sum_free cores xs n i f ≡ ok g)
unfolding sum_free
sum_free_total cores xs zero i f h l = (f, refl)
sum_free_total cores xs (suc n) i f h l =
    let (s, g) = get_elem?-some xs i (omega arith) in
    let e = lookup_server-get 0 i i xs s h (omega arith) g in
    let (z, u) = sum_free_total cores xs n (suc i) (add_free cores s f) h (omega arith) in
    (z, rw e u)

pub calculate_free_resources_total :
    (r : Rms) (nodes : ℕ) (mem cores : ℤ) (f : Free)
    → HasServers r
    → (g : Free) × (calculate_free_resources r nodes mem cores f ≡ ok g)
unfolding calculate_free_resources
calculate_free_resources_total r nodes mem cores f h =
    let (g, u) =
      sum_free_total cores r.servers r.num_servers 0 f h.numbered (omega (arith, h.counted)) in
    (
      record {
        free_nodes = g.free_nodes -ℤ pos nodes;
        free_memory = g.free_memory -ℤ mem *ℤ pos nodes;
        free_cores = g.free_cores -ℤ cores *ℤ pos nodes;
      },
      rw u refl,
    )

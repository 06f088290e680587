-- ===== src/Rms/Dequeue/FirstFit.antt =====
-- The backfill by the first job that fits.
use cplusplus_projects.Common.{
  ℕ, zero, suc, ◌+◌, ◌≤◌, ◌<◌, ◌≡◌, refl, ap, ◌∙◌, true, false, ◌||◌, List, some, ℤ, Result, ok,
  ◌==◌, arith, Bool-cases, ◌⊎◌, ◌≢◌, inl, inr, length, get_elem?, get_elem?-some,
}
use cplusplus_projects.Rms.State.{Job, Rms}
use cplusplus_projects.Rms.Search.{search_servers}
use cplusplus_projects.Rms.Queue.{is_interactive}
use cplusplus_projects.Rms.Connect.{init_server_connection}
use cplusplus_projects.Rms.Estimate.{get_estimated_start_time}
use cplusplus_projects.Rms.Dequeue.{
  remove_at, Cursor, ends_before_start, first_fit_step, goes_on, first_fit,
}
use cplusplus_projects.Rms.Dequeue.Ready.{Ready, fits, found_at}
use cplusplus_projects.Rms.Dequeue.Remove.{
  Kept, Kept-refl, Kept-trans, remove_at-Kept, length-remove_at,
}
use cplusplus_projects.Rms.Dequeue.Pull.{
  job_at-some, pull, get_estimated_start_time_total, is_resources_available_total,
}

-- A round moves on: it skips a job or takes one out, and never the first.
record Moves (r : Rms) (i : ℕ) (m : Result Cursor) : Type 0 where
  rms : Rms
  index : ℕ
  returns : m ≡ ok (rms, index)
  ready : Ready rms rms.job_queue
  kept : Kept r.job_queue rms.job_queue
  behind : 1 ≤ index
  inside : index ≤ length rms.job_queue
  nearer : length rms.job_queue + i < length r.job_queue + index

module _ (r : Rms) (i : ℕ) (j : Job) (ns : List ℤ) (there : get_elem? r.job_queue i ≡ some j)
    (search : search_servers r j.nodes j.need_memory j.cores true ≡ ok (found_at r j ns)) where
  pub step_unfit : fits r j ≡ false → first_fit_step r i ≡ ok (r, suc i)
  unfolding first_fit_step
  step_unfit f = rw (job_at-some r.job_queue i j there, search, f, first_fit_step) refl

  pub step_late :
      (t : ℤ)
      → fits r j ≡ true
      → get_estimated_start_time r ≡ ok t
      → (ends_before_start r j t || is_interactive j) ≡ false
      → first_fit_step r i ≡ ok (r, suc i)
  unfolding first_fit_step
  step_late t f e late =
      rw (job_at-some r.job_queue i j there, search, f, first_fit_step) (rw (e, late) refl)

  pub step_starts :
      (t : ℤ) (p : Rms)
      → fits r j ≡ true
      → get_estimated_start_time r ≡ ok t
      → (ends_before_start r j t || is_interactive j) ≡ true
      → init_server_connection (record r { job_queue = remove_at i r.job_queue }) ns j ≡ ok p
      → first_fit_step r i ≡ ok (p, i)
  unfolding first_fit_step
  step_starts t p f e early u =
      rw (job_at-some r.job_queue i j there, search, f, first_fit_step) (rw (e, early) (rw u refl))

  Moves-skip :
      Ready r r.job_queue
      → 1 ≤ i
      → i < length r.job_queue
      → first_fit_step r i ≡ ok (r, suc i)
      → Moves r i (first_fit_step r i)
  Moves-skip h l b e = record {
    rms = r;
    index = suc i;
    returns = e;
    ready = h;
    kept = Kept-refl r.job_queue;
    behind = omega arith;
    inside = omega arith;
    nearer = omega arith;
  }

  Moves-start :
      (p : Rms)
      → 1 ≤ i
      → i < length r.job_queue
      → p.job_queue ≡ remove_at i r.job_queue
      → Ready p p.job_queue
      → first_fit_step r i ≡ ok (p, i)
      → Moves r i (first_fit_step r i)
  Moves-start p l b same h e =
      let shorter : suc (length p.job_queue) ≡ length r.job_queue =
        ap (λ q. suc (length q)) same ∙ length-remove_at i r.job_queue b in
      record {
        rms = p;
        index = i;
        returns = e;
        ready = h;
        kept = rw same (remove_at-Kept i r.job_queue l);
        behind = l;
        inside = omega (arith, shorter);
        nearer = omega (arith, shorter);
      }

first_fit_step-Moves :
    (r : Rms) (i : ℕ)
    → Ready r r.job_queue
    → 1 ≤ i
    → i < length r.job_queue
    → Moves r i (first_fit_step r i)
first_fit_step-Moves r i h l b =
    let (j, there) = get_elem?-some r.job_queue i b in
    let (ns, search, start) = pull r i j h there in
    let (t, e) = get_estimated_start_time_total r h (omega arith) in
    elim (Bool-cases (fits r j)) [
      | inr unfit ↦ Moves-skip r i j ns there search h l b (step_unfit r i j ns there search unfit)
      | inl fit ↦ elim (Bool-cases (ends_before_start r j t || is_interactive j)) [
        | inr late ↦
            Moves-skip r i j ns there search h l b (step_late r i j ns there search t fit e late)
        | inl early ↦
            let (p, u, same, h') = start fit in
            Moves-start r i j ns there search p l b same h'
              (step_starts r i j ns there search t p fit e early u)
      ]
    ]

-- The loop ends in a ready state, and the first job is still the first.
pub record Filled (r : Rms) (m : Result Rms) : Type 0 where
  pub final : Rms
  pub returns : m ≡ ok final
  pub ready : Ready final final.job_queue
  pub kept : Kept r.job_queue final.job_queue

goes_on_total :
    (r : Rms) (i : ℕ)
    → Ready r r.job_queue
    → (goes_on r i ≡ ok false) ⊎ ((goes_on r i ≡ ok true) × (i ≢ length r.job_queue))
unfolding goes_on
goes_on_total r i h = elim (Bool-cases (length r.job_queue == 0 || i == length r.job_queue)) [
  | inl at_end ↦ inl (rw (at_end, goes_on) refl)
  | inr inside ↦
      let (b, e) = is_resources_available_total r h.has_servers in
      elim (Bool-cases b) [
        | inl free ↦ inr (rw (inside, goes_on) (e ∙ ap ok free), ground arith)
        | inr busy ↦ inl (rw (inside, goes_on) (e ∙ ap ok busy))
      ]
]

pub first_fit-Filled :
    (n : ℕ) (r : Rms) (i : ℕ)
    → Ready r r.job_queue
    → 1 ≤ i
    → i < length r.job_queue
    → length r.job_queue ≤ n + i
    → Filled r (first_fit n r i)
unfolding first_fit
first_fit-Filled zero r i h l b enough = absurd (omega arith)
first_fit-Filled (suc n) r i h l b enough =
    let s = first_fit_step-Moves r i h l b in
    elim (goes_on_total s.rms s.index s.ready) [
      | inl stop ↦ record {
        final = s.rms;
        returns = rw (s.returns, stop, first_fit) refl;
        ready = s.ready;
        kept = s.kept;
      }
      | inr (more, inside) ↦
          let rest =
            first_fit-Filled n s.rms s.index s.ready s.behind (omega (arith, s.inside, inside))
              (omega (arith, s.nearer, enough)) in
          record {
            final = rest.final;
            returns = rw (s.returns, more, first_fit) rest.returns;
            ready = rest.ready;
            kept = Kept-trans r.job_queue s.rms.job_queue rest.final.job_queue s.kept rest.kept;
          }
    ]

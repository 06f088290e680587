-- ===== src/Rms/Dequeue/Optimal.antt =====
-- One search of the queue for the best job, and its start.
use cplusplus_projects.Common.{
  ℕ, suc, ◌+◌, ◌≤◌, ◌<◌, ◌≡◌, refl, ap, ◌∙◌, Bool, true, false, ◌&&◌, not, List, Option, none, some,
  ℤ, Result, ok, arith, Bool-cases, inl, inr, length, get_elem?,
}
use cplusplus_projects.Rms.State.{Job, Rms, minus_one}
use cplusplus_projects.Rms.Search.{Free, search_servers}
use cplusplus_projects.Rms.Queue.{is_interactive}
use cplusplus_projects.Rms.Connect.{init_server_connection}
use cplusplus_projects.Rms.Estimate.{get_estimated_start_time}
use cplusplus_projects.Rms.Dequeue.{
  remove_at, ends_before_start, OptJob, add_optimal_job, is_better, Best, no_free, compare_job,
  best_fit_step,
}
use cplusplus_projects.Rms.Dequeue.Ready.{Ready, fits, found_at}
use cplusplus_projects.Rms.Dequeue.Remove.{Kept, Kept-trans, remove_at-Kept, length-remove_at}
use cplusplus_projects.Rms.Dequeue.Pull.{job_at-some, calculate_free_resources_total}

-- The optimal job, if there is one, stands behind the first job of the queue and can be started.
abbrev pub Startable : Rms → Option (ℕ × Job × List ℤ) → Type 0
Startable r none = Unit
Startable r (some (i, j, ns)) =
    (1 ≤ i)
    × (i < length r.job_queue)
    × (get_elem? r.job_queue i ≡ some j)
    × (fits r j ≡ true)
    × (search_servers r j.nodes j.need_memory j.cores true ≡ ok (found_at r j ns))

abbrev pub has_choice : Option (ℕ × Job × List ℤ) → Bool
has_choice none = false
has_choice (some c) = true

-- Until a job is chosen, the free resources are the sentinel.
abbrev pub Untouched : OptJob → Type 0
Untouched o = has_choice o.choice ≡ false → o.free.free_nodes ≡ minus_one

-- What holds between two rounds, of a search that began in `r`. Without an interactive job the
-- system is as it was; with one the queue is shorter.
pub record Searched (r : Rms) (b : Best) : Type 0 where
  pub ready : Ready b.rms b.rms.job_queue
  pub kept : Kept r.job_queue b.rms.job_queue
  pub behind : 1 ≤ b.index
  pub inside : b.index ≤ length b.rms.job_queue
  pub size : length b.rms.job_queue ≤ length r.job_queue
  pub quiet : b.interactive_found ≡ false → Startable b.rms b.opt.choice
  pub untouched : Untouched b.opt
  pub found : b.job_found ≡ true → b.interactive_found ≡ false → has_choice b.opt.choice ≡ true
  pub taken : b.interactive_found ≡ true → length b.rms.job_queue < length r.job_queue

-- A round, and that it moves towards the end of the queue.
pub record Round (r : Rms) (b : Best) (m : Result Best) : Type 0 where
  pub next : Best
  pub returns : m ≡ ok next
  pub searched : Searched r next
  pub nearer : length next.rms.job_queue + b.index < length b.rms.job_queue + next.index

module _ (b : Best) (j : Job) (ns : List ℤ) (there : get_elem? b.rms.job_queue b.index ≡ some j)
    (search : search_servers b.rms j.nodes j.need_memory j.cores true
      ≡ ok (found_at b.rms j ns)) where
  pub best_unfit : fits b.rms j ≡ false → best_fit_step b ≡ ok (record b { index = suc b.index })
  unfolding best_fit_step
  best_unfit f = rw (job_at-some b.rms.job_queue b.index j there, search, f, best_fit_step) refl

  module _ (t : ℤ) (fit : fits b.rms j ≡ true) (e : get_estimated_start_time b.rms ≡ ok t) where
    pub best_compares :
        (ends_before_start b.rms j t && not (is_interactive j)) ≡ true
        → best_fit_step b ≡ compare_job b j ns
    unfolding best_fit_step
    best_compares early =
        rw (job_at-some b.rms.job_queue b.index j there, search, fit, best_fit_step)
          (rw (e, early) refl)

    pub best_late :
        (ends_before_start b.rms j t && not (is_interactive j)) ≡ false
        → is_interactive j ≡ false
        → best_fit_step b ≡ ok (record b { index = suc b.index })
    unfolding best_fit_step
    best_late late batch =
        rw (job_at-some b.rms.job_queue b.index j there, search, fit, best_fit_step)
          (rw (e, late) (rw batch refl))

    pub best_starts :
        (p : Rms)
        → (ends_before_start b.rms j t && not (is_interactive j)) ≡ false
        → is_interactive j ≡ true
        → init_server_connection
            (record b.rms { job_queue = remove_at b.index b.rms.job_queue })
            ns
            j
          ≡ ok p
        → best_fit_step b ≡ ok (record b { rms = p; job_found = true; interactive_found = true })
    unfolding best_fit_step
    best_starts p late now u =
        rw (job_at-some b.rms.job_queue b.index j there, search, fit, best_fit_step)
          (rw (e, late) (rw now (rw u refl)))

pub Round-skip :
    (r : Rms) (b : Best) (m : Result Best)
    → Searched r b
    → b.index < length b.rms.job_queue
    → m ≡ ok (record b { index = suc b.index })
    → Round r b m
Round-skip r b m s l e = record {
  next = record b { index = suc b.index };
  returns = e;
  searched = record {
    ready = s.ready;
    kept = s.kept;
    behind = omega arith;
    inside = omega arith;
    size = s.size;
    quiet = s.quiet;
    untouched = s.untouched;
    found = s.found;
    taken = s.taken;
  };
  nearer = omega arith;
}

pub Round-start :
    (r : Rms) (b : Best) (m : Result Best) (p : Rms)
    → Searched r b
    → b.index < length b.rms.job_queue
    → p.job_queue ≡ remove_at b.index b.rms.job_queue
    → Ready p p.job_queue
    → m ≡ ok (record b { rms = p; job_found = true; interactive_found = true })
    → Round r b m
Round-start r b m p s l same h e =
    let shorter : suc (length p.job_queue) ≡ length b.rms.job_queue =
      ap (λ q. suc (length q)) same ∙ length-remove_at b.index b.rms.job_queue l in
    record {
      next = record b { rms = p; job_found = true; interactive_found = true };
      returns = e;
      searched = record {
        ready = h;
        kept =
            Kept-trans r.job_queue b.rms.job_queue p.job_queue s.kept
              (rw same (remove_at-Kept b.index b.rms.job_queue s.behind));
        behind = s.behind;
        inside = omega (arith, shorter);
        size = omega (arith, shorter, s.size);
        quiet = λ q. absurd cc;
        untouched = s.untouched;
        found = λ f q. absurd cc;
        taken = λ q. omega (arith, shorter, s.size);
      };
      nearer = omega (arith, shorter);
    }

-- The first job that is compared becomes the optimal one.
is_better-first : (f g : Free) → g.free_nodes ≡ minus_one → is_better f g ≡ true
is_better-first f g e = ground (arith, e)

pub Round-compare :
    (r : Rms) (b : Best) (j : Job) (ns : List ℤ)
    → Searched r b
    → b.index < length b.rms.job_queue
    → Startable b.rms (some (b.index, j, ns))
    → Round r b (compare_job b j ns)
unfolding compare_job
Round-compare r b j ns s l can =
    let (f, e) =
      calculate_free_resources_total b.rms j.nodes j.need_memory j.cores no_free
        s.ready.has_servers in
    elim (Bool-cases (is_better f b.opt.free)) [
      | inl better ↦ record {
        next = record b {
          index = suc b.index;
          job_found = true;
          opt = add_optimal_job b.index j ns f;
        };
        returns = rw (e, better, compare_job) refl;
        searched = record {
          ready = s.ready;
          kept = s.kept;
          behind = omega arith;
          inside = omega arith;
          size = s.size;
          quiet = λ q. can;
          untouched = λ q. absurd cc;
          found = λ q w. refl;
          taken = s.taken;
        };
        nearer = omega arith;
      }
      | inr worse ↦ record {
        next = record b { index = suc b.index; job_found = true };
        returns = rw (e, worse, compare_job) refl;
        searched = record {
          ready = s.ready;
          kept = s.kept;
          behind = omega arith;
          inside = omega arith;
          size = s.size;
          quiet = s.quiet;
          untouched = s.untouched;
          found = λ q w. elim (Bool-cases (has_choice b.opt.choice)) [
            | inl some_job ↦ some_job
            | inr no_job ↦
                let better = is_better-first f b.opt.free (s.untouched no_job) in absurd cc
          ];
          taken = s.taken;
        };
        nearer = omega arith;
      }
    ]

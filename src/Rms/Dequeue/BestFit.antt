-- ===== src/Rms/Dequeue/BestFit.antt =====
-- The backfill by the best job that fits.
use mathlib.Core.Path.{subst}
use cplusplus_projects.Common.{
  ℕ, zero, suc, ◌+◌, ◌≤◌, ◌<◌, ◌≡◌, refl, sym, ap, ◌∙◌, Bool, true, false, ◌||◌, ◌&&◌, not, List,
  Option, none, some, ℤ, Result, ok, ◌==◌, ltb, arith, Bool-cases, inl, inr, length, get_elem?-some,
  ok_inj,
}
use cplusplus_projects.Rms.State.{Job, Rms}
use cplusplus_projects.Rms.Search.{Found, is_resources_available}
use cplusplus_projects.Rms.Queue.{is_interactive}
use cplusplus_projects.Rms.Connect.{init_server_connection}
use cplusplus_projects.Rms.Dequeue.{
  remove_at, ends_before_start, no_opt_job, Best, best_fit_step, best_fit_scan, start_optimal,
  best_fit,
}
use cplusplus_projects.Rms.Dequeue.Ready.{Ready, Ready-queue, fits, attempt, Started-Ready}
use cplusplus_projects.Rms.Dequeue.Remove.{
  Kept, Kept-refl, Kept-trans, remove_at-Kept, remove_at-Sublist, length-remove_at, All-get,
  All-Sublist, HasOwners-Sublist, others-remove_at,
}
use cplusplus_projects.Rms.Dequeue.Pull.{
  pull, get_estimated_start_time_total, is_resources_available_total,
}
use cplusplus_projects.Rms.Dequeue.FirstFit.{Filled}
use cplusplus_projects.Rms.Dequeue.Optimal.{
  Startable, has_choice, Searched, Round, Round-skip, Round-start, Round-compare, best_unfit,
  best_compares, best_late, best_starts,
}

best_fit_step-Round :
    (r : Rms) (b : Best)
    → Searched r b
    → b.index < length b.rms.job_queue
    → Round r b (best_fit_step b)
best_fit_step-Round r b s l =
    let (j, there) = get_elem?-some b.rms.job_queue b.index l in
    let (ns, search, start) = pull b.rms b.index j s.ready there in
    let (t, e) = get_estimated_start_time_total b.rms s.ready (omega arith) in
    elim (Bool-cases (fits b.rms j)) [
      | inr unfit ↦ Round-skip r b _ s l (best_unfit b j ns there search unfit)
      | inl fit ↦ elim (Bool-cases (ends_before_start b.rms j t && not (is_interactive j))) [
        | inl early ↦
            subst (Round r b) (sym (best_compares b j ns there search t fit e early))
              (Round-compare r b j ns s l (s.behind, l, there, fit, search))
        | inr late ↦ elim (Bool-cases (is_interactive j)) [
          | inr batch ↦ Round-skip r b _ s l (best_late b j ns there search t fit e late batch)
          | inl now ↦
              let (p, u, same, h') = start fit in
              Round-start r b _ p s l same h' (best_starts b j ns there search t fit e p late now u)
        ]
      ]
    ]

-- The end of the search's loop, as a function of its test.
abbrev scan_on : ℕ → Best → Bool → Result Best
scan_on n c stop = elim stop [ true ↦ ok c | false ↦ best_fit_scan n c ]

best_fit_scan-on :
    (n : ℕ) (b c : Best)
    → best_fit_step b ≡ ok c
    → best_fit_scan (suc n) b
      ≡ scan_on n c (length c.rms.job_queue == 0 || c.index == length c.rms.job_queue)
unfolding best_fit_scan
best_fit_scan-on n b c e = rw (e, best_fit_scan) refl

-- The search comes to the end of the queue.
best_fit_scan-Searched :
    (n : ℕ) (r : Rms) (b : Best)
    → Searched r b
    → b.index < length b.rms.job_queue
    → length b.rms.job_queue ≤ n + b.index
    → (c : Best) × (best_fit_scan n b ≡ ok c) × Searched r c
unfolding best_fit_scan
best_fit_scan-Searched zero r b s l enough = absurd (omega arith)
best_fit_scan-Searched (suc n) r b s l enough =
    let step = best_fit_step-Round r b s l in
    let c = step.next in
    elim (Bool-cases (length c.rms.job_queue == 0 || c.index == length c.rms.job_queue)) [
      | inl at_end ↦
          (c, best_fit_scan-on n b c step.returns ∙ ap (scan_on n c) at_end, step.searched)
      | inr on ↦
          let below : c.index < length c.rms.job_queue = ground (arith, step.searched.inside) in
          let (d, e, s') =
            best_fit_scan-Searched n r c step.searched below (omega (arith, step.nearer, enough)) in
          (d, best_fit_scan-on n b c step.returns ∙ ap (scan_on n c) on ∙ e, s')
    ]

-- The optimal job is started in the state in which the search left the system.
start_choice :
    (r : Rms) (i : ℕ) (j : Job) (ns : List ℤ)
    → Ready r r.job_queue
    → Startable r (some (i, j, ns))
    → (p : Rms) × (init_server_connection r ns j ≡ ok p)
      × (p.job_queue ≡ r.job_queue)
      × Ready (record p { job_queue = remove_at i p.job_queue }) (remove_at i p.job_queue)
start_choice r i j ns h (l, b, there, fit, search) =
    let (ms, e, start) =
      attempt r j h.has_servers h.sound (All-get _ r.job_queue i j h.waiting there) in
    let same : ms ≡ ns = ap (λ (f : Found). f.numbers) (ok_inj (sym e ∙ search)) in
    let (p, u, s) = start fit in
    let q = remove_at i r.job_queue in
    let sub = remove_at-Sublist i r.job_queue in
    let after =
      Started-Ready r p j q s (others-remove_at r.job_queue i j h.owners there)
        (All-Sublist _ sub h.waiting) (HasOwners-Sublist sub h.owners) (All-Sublist _ sub h.wide) in
    (
      p,
      subst (λ ks. init_server_connection r ks j ≡ ok p) same u,
      s.frame.same_queue,
      subst (λ q'. Ready (record p { job_queue = remove_at i q' }) (remove_at i q'))
          (sym s.frame.same_queue) (Ready-queue p q after),
    )

-- What a round of the outer loop achieves: one job less, and never the first.
record Shortened (r : Rms) (m : Result Rms) : Type 0 where
  final : Rms
  returns : m ≡ ok final
  ready : Ready final final.job_queue
  kept : Kept r.job_queue final.job_queue
  shorter : length final.job_queue < length r.job_queue

module _ (r : Rms) (b : Best) (s : Searched r b) where
  start_optimal-chosen :
      (o : Option (ℕ × Job × List ℤ))
      → b.opt.choice ≡ o
      → has_choice o ≡ true
      → b.interactive_found ≡ false
      → Startable b.rms o
      → Shortened r (start_optimal b)
  unfolding start_optimal
  start_optimal-chosen none e h quiet can = absurd cc
  start_optimal-chosen (some (i, j, ns)) e h quiet can =
      let (p, u, same, h') = start_choice b.rms i j ns s.ready can in
      record {
        final = record p { job_queue = remove_at i p.job_queue };
        returns = rw (quiet, e, start_optimal) (rw u refl);
        ready = h';
        kept =
            Kept-trans r.job_queue b.rms.job_queue (remove_at i p.job_queue) s.kept
              (rw same (remove_at-Kept i b.rms.job_queue can.0));
        shorter = omega (
          arith,
          ap (λ q. suc (length (remove_at i q))) same ∙ length-remove_at i b.rms.job_queue can.1,
          s.size,
        );
      }

  start_optimal-Shortened : b.job_found ≡ true → Shortened r (start_optimal b)
  unfolding start_optimal
  start_optimal-Shortened found = elim (Bool-cases b.interactive_found) [
    | inl now ↦ record {
      final = b.rms;
      returns = rw (now, start_optimal) refl;
      ready = s.ready;
      kept = s.kept;
      shorter = s.taken now;
    }
    | inr quiet ↦ start_optimal-chosen b.opt.choice refl (s.found found quiet) quiet (s.quiet quiet)
  ]

abbrev start_search : Rms → Best
start_search r = record {
  rms = r;
  index = 1;
  opt = no_opt_job;
  job_found = false;
  interactive_found = false;
}

start_search-Searched :
    (r : Rms) → Ready r r.job_queue → 1 < length r.job_queue → Searched r (start_search r)
start_search-Searched r h l = record {
  ready = h;
  kept = Kept-refl r.job_queue;
  behind = omega arith;
  inside = omega arith;
  size = omega arith;
  quiet = λ q. tt;
  untouched = λ q. refl;
  found = λ f q. absurd cc;
  taken = λ q. absurd cc;
}

abbrev search_again : ℕ → Rms → Bool → Result Rms
search_again n p again = elim again [ true ↦ best_fit n p | false ↦ ok p ]

module _ (n : ℕ) (r : Rms) (b : Best)
    (e : best_fit_scan (length r.job_queue) (start_search r) ≡ ok b) where
  best_fit-none : b.job_found ≡ false → best_fit (suc n) r ≡ ok b.rms
  unfolding best_fit
  best_fit-none none_found = rw (e, best_fit) (rw none_found refl)

  best_fit-again :
      (p : Rms) (free : Bool)
      → b.job_found ≡ true
      → start_optimal b ≡ ok p
      → is_resources_available p ≡ ok free
      → best_fit (suc n) r ≡ search_again n p (free && ltb 1 (length p.job_queue))
  unfolding best_fit
  best_fit-again p free found started a = rw (e, best_fit) (rw found (rw started (rw a refl)))

pub best_fit-Filled :
    (n : ℕ) (r : Rms)
    → Ready r r.job_queue
    → 1 < length r.job_queue
    → length r.job_queue ≤ suc n
    → Filled r (best_fit n r)
unfolding best_fit
best_fit-Filled zero r h l enough = absurd (omega arith)
best_fit-Filled (suc n) r h l enough =
    let (b, e, s) =
      best_fit_scan-Searched (length r.job_queue) r (start_search r) (start_search-Searched r h l) l
        (omega arith) in
    elim (Bool-cases b.job_found) [
      | inr nothing ↦ record {
        final = b.rms;
        returns = best_fit-none n r b e nothing;
        ready = s.ready;
        kept = s.kept;
      }
      | inl found ↦
          let one = start_optimal-Shortened r b s found in
          let p = one.final in
          let (free, a) = is_resources_available_total p one.ready.has_servers in
          elim (Bool-cases (free && ltb 1 (length p.job_queue))) [
            | inr stop ↦ record {
              final = p;
              returns =
                  best_fit-again n r b e p free found one.returns a ∙ ap (search_again n p) stop;
              ready = one.ready;
              kept = one.kept;
            }
            | inl again ↦
                let rest =
                  best_fit-Filled n p one.ready (ground (arith, again))
                    (omega (arith, one.shorter, enough)) in
                record {
                  final = rest.final;
                  returns =
                      best_fit-again n r b e p free found one.returns a
                      ∙ ap (search_again n p) again
                      ∙ rest.returns;
                  ready = rest.ready;
                  kept = Kept-trans r.job_queue p.job_queue rest.final.job_queue one.kept rest.kept;
                }
          ]
    ]

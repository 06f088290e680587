-- ===== src/Rms/Dequeue/Registered.antt =====
-- dequeue neither registers a client nor deletes one.
use cplusplus_projects.Common.{
  ℕ, zero, suc, ◌≡◌, refl, sym, ap, ◌∙◌, ◌==◌, Bool, true, false, ◌&&◌, ◌||◌, not, List, [], ◌∷◌,
  none, some, ℤ, pos, ltb, ltb_ℤ, ◌-ℤ◌, Result, ok, fault, Fault, ◌>>=◌, >>=-eq-ok, ok_inj, length,
  if◌then◌else◌,
}
use cplusplus_projects.Rms.State.{Job, Rms, seconds, update_server, lookup_server}
use cplusplus_projects.Rms.Search.{search_servers, is_resources_available, calculate_free_resources}
use cplusplus_projects.Rms.Queue.{is_interactive}
use cplusplus_projects.Rms.Connect.{init_server_connection}
use cplusplus_projects.Rms.Connect.Clients.{addresses}
use cplusplus_projects.Rms.Connect.Frame.{init_server_connection-Frame}
use cplusplus_projects.Rms.Estimate.{get_estimated_start_time}
use cplusplus_projects.Rms.Sleep.{
  suspended, suspend, suspend_unless_due, may_suspend, check_from, check_servers,
}
use cplusplus_projects.Rms.Dequeue.{
  with_servers, find_from, find_resources, job_at, remove_at, Cursor, ends_before_start,
  first_fit_step, goes_on, first_fit, Best, no_opt_job, no_free, compare_job, best_fit_step,
  best_fit_scan, start_optimal, best_fit, check_if_aware, backfill, dequeue,
}

-- A run that ends well, in a state that `view` sees, leaves the addresses as in `cs`.
abbrev Keeps {ℓ} : {A : Type ℓ} → List ℕ → (A → Rms) → Result A → Type ℓ
Keeps {A} cs view m = (a : A) → m ≡ ok a → addresses (view a).clients ≡ cs

abbrev itself : Rms → Rms
itself r = r

module _ {ℓ} {A : Type ℓ} (cs : List ℕ) (view : A → Rms) where
  Keeps-ok : (a : A) → addresses (view a).clients ≡ cs → Keeps cs view (ok a)
  Keeps-ok a h b e = ap (λ c. addresses (view c).clients) (sym (ok_inj e)) ∙ h

  Keeps-bind {κ} :
      {B : Type κ} (m : Result B) (f : B → Result A)
      → ((b : B) → m ≡ ok b → Keeps cs view (f b))
      → Keeps cs view (m >>= f)
  Keeps-bind m f h a e = let (b, u, v) = >>=-eq-ok m f e in h b u a v

  Keeps-if :
      (b : Bool) (x y : Result A)
      → Keeps cs view x
      → Keeps cs view y
      → Keeps cs view (if b then x else y)
  Keeps-if true x y h k = h
  Keeps-if false x y h k = k

  Keeps-elim :
      (b : Bool) (x y : Result A)
      → Keeps cs view x
      → Keeps cs view y
      → Keeps cs view (elim b [ true ↦ x | false ↦ y ])
  Keeps-elim true x y h k = h
  Keeps-elim false x y h k = k

init-Keeps :
    (r : Rms) (ns : List ℤ) (j : Job)
    → Keeps (addresses r.clients) itself (init_server_connection r ns j)
init-Keeps r ns j p e = (init_server_connection-Frame r p ns j e).same_addresses

-- findResources.
find_from-Keeps :
    (n : ℕ) (r : Rms) (q : List Job) → Keeps (addresses r.clients) itself (find_from n r q)
unfolding find_from
find_from-Keeps zero r q = λ a e. absurd cc
find_from-Keeps (suc n) r [] = λ a e. absurd cc
find_from-Keeps (suc n) r (j ∷ js) =
    let cs = addresses r.clients in
    Keeps-bind cs itself
      (search_servers (record r { job_queue = js }) j.nodes j.need_memory j.cores true) _
      (λ f u.
        let started = record r { job_queue = js; servers = f.servers } in
        Keeps-elim cs itself f.found _ _
          (Keeps-bind cs itself (init_server_connection started f.numbers j) _ (λ p v.
            elim p.job_queue
              as (λ q. Keeps cs itself (elim q [ [] ↦ ok p | k ∷ ks ↦ find_from n p (k ∷ ks) ])) [
                | [] ↦ Keeps-ok cs itself p (init-Keeps started f.numbers j p v)
                | k ∷ ks ↦
                    λ a e. find_from-Keeps n p (k ∷ ks) a e ∙ init-Keeps started f.numbers j p v
              ]))
          (Keeps-ok cs itself _ refl))

-- The backfill by the first job that fits.
abbrev rms_of : Cursor → Rms
rms_of c = c.0

first_fit_step-Keeps : (r : Rms) (i : ℕ) → Keeps (addresses r.clients) rms_of (first_fit_step r i)
unfolding first_fit_step
first_fit_step-Keeps r i =
    let cs = addresses r.clients in
    Keeps-bind cs rms_of (job_at r.job_queue i) _ (λ j u.
      Keeps-bind cs rms_of (search_servers r j.nodes j.need_memory j.cores true) _ (λ f v.
        Keeps-elim cs rms_of f.found _ _
          (Keeps-bind cs rms_of (get_estimated_start_time (with_servers r f)) _ (λ t w.
            Keeps-if cs rms_of (ends_before_start r j t || is_interactive j) _ _
              (Keeps-bind cs rms_of
                (init_server_connection
                  (record r { servers = f.servers; job_queue = remove_at i r.job_queue }) f.numbers
                  j)
                _ (λ p x. Keeps-ok cs rms_of (p, i) (init-Keeps _ f.numbers j p x)))
              (Keeps-ok cs rms_of _ refl)))
          (Keeps-ok cs rms_of _ refl)))

first_fit-Keeps : (n : ℕ) (r : Rms) (i : ℕ) → Keeps (addresses r.clients) itself (first_fit n r i)
unfolding first_fit
first_fit-Keeps zero r i = λ a e. absurd cc
first_fit-Keeps (suc n) r i =
    let cs = addresses r.clients in
    Keeps-bind cs itself (first_fit_step r i) _ (λ c u.
      let h = first_fit_step-Keeps r i c u in
      Keeps-bind cs itself (goes_on c.0 c.1) _ (λ more v.
        Keeps-elim cs itself more _ _ (λ a e. first_fit-Keeps n c.0 c.1 a e ∙ h)
          (Keeps-ok cs itself c.0 h)))

-- The backfill by the best one.
abbrev best_rms : Best → Rms
best_rms b = b.rms

compare_job-Keeps :
    (b : Best) (j : Job) (ns : List ℤ)
    → Keeps (addresses b.rms.clients) best_rms (compare_job b j ns)
unfolding compare_job
compare_job-Keeps b j ns =
    let cs = addresses b.rms.clients in
    Keeps-bind cs best_rms (calculate_free_resources b.rms j.nodes j.need_memory j.cores no_free) _
      (λ f u. Keeps-ok cs best_rms _ refl)

best_fit_step-Keeps : (b : Best) → Keeps (addresses b.rms.clients) best_rms (best_fit_step b)
unfolding best_fit_step
best_fit_step-Keeps b =
    let cs = addresses b.rms.clients in
    Keeps-bind cs best_rms (job_at b.rms.job_queue b.index) _ (λ j u.
      Keeps-bind cs best_rms (search_servers b.rms j.nodes j.need_memory j.cores true) _ (λ f v.
        Keeps-elim cs best_rms f.found _ _
          (Keeps-bind cs best_rms (get_estimated_start_time (with_servers b.rms f)) _ (λ t w.
            Keeps-if cs best_rms (ends_before_start b.rms j t && not (is_interactive j)) _ _
              (compare_job-Keeps (record b { rms = with_servers b.rms f }) j f.numbers)
              (Keeps-if cs best_rms (is_interactive j) _ _
                (Keeps-bind cs best_rms
                  (init_server_connection
                    (record b.rms {
                      servers = f.servers;
                      job_queue = remove_at b.index b.rms.job_queue;
                    })
                    f.numbers j)
                  _ (λ p x. Keeps-ok cs best_rms _ (init-Keeps _ f.numbers j p x)))
                (Keeps-ok cs best_rms _ refl))))
          (Keeps-ok cs best_rms _ refl)))

best_fit_scan-Keeps :
    (n : ℕ) (b : Best) → Keeps (addresses b.rms.clients) best_rms (best_fit_scan n b)
unfolding best_fit_scan
best_fit_scan-Keeps zero b = λ a e. absurd cc
best_fit_scan-Keeps (suc n) b =
    let cs = addresses b.rms.clients in
    Keeps-bind cs best_rms (best_fit_step b) _ (λ c u.
      let h = best_fit_step-Keeps b c u in
      Keeps-elim cs best_rms (length c.rms.job_queue == 0 || c.index == length c.rms.job_queue) _ _
        (Keeps-ok cs best_rms c h) (λ a e. best_fit_scan-Keeps n c a e ∙ h))

start_optimal-Keeps : (b : Best) → Keeps (addresses b.rms.clients) itself (start_optimal b)
unfolding start_optimal
start_optimal-Keeps b =
    let cs = addresses b.rms.clients in
    Keeps-if cs itself b.interactive_found _ _ (Keeps-ok cs itself b.rms refl)
      (elim b.opt.choice
        as (λ o. Keeps cs itself (elim o [
          | none ↦ fault Fault.bad_index
          | some (i, j, ns) ↦ init_server_connection b.rms ns j >>= λ p.
              ok (record p { job_queue = remove_at i p.job_queue })
        ])) [
          | none ↦ λ a e. absurd cc
          | some (i, j, ns) ↦
              Keeps-bind cs itself (init_server_connection b.rms ns j) _
                (λ p u. Keeps-ok cs itself _ (init-Keeps b.rms ns j p u))
        ])

best_fit-Keeps : (n : ℕ) (r : Rms) → Keeps (addresses r.clients) itself (best_fit n r)
unfolding best_fit
best_fit-Keeps zero r = λ a e. absurd cc
best_fit-Keeps (suc n) r =
    let cs = addresses r.clients in
    let begin : Best = record {
      rms = r;
      index = 1;
      opt = no_opt_job;
      job_found = false;
      interactive_found = false;
    } in
    Keeps-bind cs itself (best_fit_scan (length r.job_queue) begin) _ (λ b u.
      let h = best_fit_scan-Keeps (length r.job_queue) begin b u in
      Keeps-elim cs itself b.job_found _ _
        (Keeps-bind cs itself (start_optimal b) _ (λ p v.
          let h' = start_optimal-Keeps b p v ∙ h in
          Keeps-bind cs itself (is_resources_available p) _ (λ free w.
            Keeps-elim cs itself (free && ltb 1 (length p.job_queue)) _ _
              (λ a e. best_fit-Keeps n p a e ∙ h') (Keeps-ok cs itself p h'))))
        (Keeps-ok cs itself b.rms h))

-- checkServers.
suspend-Keeps : (r : Rms) (i : ℕ) → Keeps (addresses r.clients) itself (suspend r i)
unfolding suspend
suspend-Keeps r i =
    Keeps-bind (addresses r.clients) itself (update_server r.servers (pos i) suspended) _
      (λ xs u. Keeps-ok (addresses r.clients) itself _ refl)

suspend_unless_due-Keeps :
    (js : List Job) (r : Rms) (i : ℕ)
    → Keeps (addresses r.clients) itself (suspend_unless_due js r i)
unfolding suspend_unless_due
suspend_unless_due-Keeps [] r i = suspend-Keeps r i
suspend_unless_due-Keeps (j ∷ js) r i =
    let cs = addresses r.clients in
    Keeps-bind cs itself (get_estimated_start_time r) _ (λ t u.
      Keeps-if cs itself (ltb_ℤ (seconds 50) (t -ℤ r.now)) _ _ (suspend-Keeps r i)
        (Keeps-ok cs itself r refl))

check_from-Keeps : (n i : ℕ) (r : Rms) → Keeps (addresses r.clients) itself (check_from n i r)
unfolding check_from
check_from-Keeps zero i r = Keeps-ok (addresses r.clients) itself r refl
check_from-Keeps (suc n) i r =
    let cs = addresses r.clients in
    Keeps-bind cs itself (lookup_server r.servers (pos i)) _ (λ s u.
      Keeps-bind cs itself (if may_suspend r s then suspend_unless_due r.job_queue r i else ok r) _
        (λ q v.
          let h =
            Keeps-if cs itself (may_suspend r s) _ _ (suspend_unless_due-Keeps r.job_queue r i)
              (Keeps-ok cs itself r refl) q v in
          λ a e. check_from-Keeps n (suc i) q a e ∙ h))

check_if_aware-Keeps : (r : Rms) → Keeps (addresses r.clients) itself (check_if_aware r)
unfolding check_servers
check_if_aware-Keeps r =
    Keeps-if (addresses r.clients) itself r.energy_aware _ _ (check_from-Keeps r.num_servers 0 r)
      (Keeps-ok (addresses r.clients) itself r refl)

backfill-Keeps :
    (fit : ℕ → Rms → Result Rms)
    → ((n : ℕ) (p : Rms) → Keeps (addresses p.clients) itself (fit n p))
    → (p : Rms) → Keeps (addresses p.clients) itself (backfill fit p)
unfolding backfill
backfill-Keeps fit h p =
    let cs = addresses p.clients in
    Keeps-if cs itself (ltb 1 (length p.job_queue)) _ _
      (Keeps-bind cs itself (fit (length p.job_queue) p) _
        (λ q u. λ a e. check_if_aware-Keeps q a e ∙ h (length p.job_queue) p q u))
      (Keeps-ok cs itself p refl)

serve-Keeps :
    (r : Rms) (next : Rms → Result Rms)
    → ((p : Rms) → Keeps (addresses p.clients) itself (next p))
    → Keeps (addresses r.clients) itself (find_resources r >>= next)
unfolding find_resources
serve-Keeps r next h =
    Keeps-bind (addresses r.clients) itself (find_resources r) _
      (λ p u. λ a e. h p a e ∙ find_from-Keeps (length r.job_queue) r r.job_queue p u)

-- When dequeue ends well, the same clients are registered as before, in the same order.
pub dequeue-addresses : (r p : Rms) → dequeue r ≡ ok p → addresses p.clients ≡ addresses r.clients
unfolding dequeue
dequeue-addresses r p e = cases r.job_queue p e
  where
    cases :
        (q : List Job)
        → Keeps (addresses r.clients) itself (elim q [
          | [] ↦ check_if_aware r
          | j ∷ js ↦
              if r.scheduling == 1
              then (find_resources r >>= check_if_aware)
              else (if r.scheduling == 2
                  then (find_resources r >>= backfill (λ n p. first_fit n p 1))
                  else (if r.scheduling == 3
                      then (find_resources r >>= backfill best_fit)
                      else ok r))
        ])
    cases [] = check_if_aware-Keeps r
    cases (j ∷ js) =
        let cs = addresses r.clients in
        Keeps-if cs itself (r.scheduling == 1) _ _
          (serve-Keeps r check_if_aware check_if_aware-Keeps)
          (Keeps-if cs itself (r.scheduling == 2) _ _
            (serve-Keeps r _
              (backfill-Keeps (λ n p. first_fit n p 1) (λ n p. first_fit-Keeps n p 1)))
            (Keeps-if cs itself (r.scheduling == 3) _ _
              (serve-Keeps r _ (backfill-Keeps best_fit best_fit-Keeps))
              (Keeps-ok cs itself r refl)))

-- ===== src/Rms/Dequeue/Fifo.antt =====
-- findResources: first come, first served.
use mathlib.Core.Path.{subst}
use cplusplus_projects.Common.{
  ℕ, zero, suc, ◌≡◌, ◌≢◌, ◌≤◌, refl, sym, ap, ◌∙◌, true, false, List, [], ◌∷◌, ◌++◌, ℤ, ok, arith,
  length, Bool-cases, inl, inr, Result,
}
use cplusplus_projects.Rms.State.{Job, Rms}
use cplusplus_projects.Rms.Search.{search_servers}
use cplusplus_projects.Rms.Queue.{enqueue}
use cplusplus_projects.Rms.Connect.{init_server_connection}
use cplusplus_projects.Rms.Connect.Load.{loads}
use cplusplus_projects.Rms.Estimate.Sure.{AllWide, AllWide-each}
use cplusplus_projects.Rms.Dequeue.{find_from, find_resources}
use cplusplus_projects.Rms.Dequeue.Ready.{
  Queued, fits, found_at, attempt, Started, Started-Queued, Queued-queue, HasServers-queue,
}

-- The first job of a queue does not fit.
abbrev pub HeadBlocked : Rms → List Job → Type 0
HeadBlocked r [] = Unit
HeadBlocked r (j ∷ js) = fits r j ≡ false

-- The jobs started are a prefix of the queue; the rest stays in order, and its first job does not
-- fit. When no job needs more cores than a server has, that is so of the rest.
pub record Served (r : Rms) (q : List Job) (m : Result Rms) : Type 0 where
  pub final : Rms
  pub returns : m ≡ ok final
  pub started : List Job
  pub prefix_order : q ≡ started ++ final.job_queue
  pub ready : Queued final final.job_queue
  pub blocked : HeadBlocked final final.job_queue
  pub wide : AllWide (loads r.servers) q → AllWide (loads final.servers) final.job_queue

enqueue_front : (js : List Job) (j : Job) → enqueue js j true false j.priority ≡ j ∷ js
unfolding enqueue
enqueue_front [] j = refl
enqueue_front (k ∷ js) j = refl

module _ (n : ℕ) where
  -- What follows a start, as a function of the queue that is left.
  abbrev next : Rms → List Job → Result Rms
  next p q = elim q [ [] ↦ ok p | k ∷ ks ↦ find_from n p (k ∷ ks) ]

  find_from-found :
      (r p : Rms) (j : Job) (js : List Job) (ns : List ℤ)
      → search_servers (record r { job_queue = js }) j.nodes j.need_memory j.cores true
        ≡ ok (found_at r j ns)
      → fits r j ≡ true
      → init_server_connection (record r { job_queue = js }) ns j ≡ ok p
      → find_from (suc n) r (j ∷ js) ≡ next p p.job_queue
  unfolding find_from
  find_from-found r p j js ns e f u = rw (e, f, find_from) (rw u refl)

  find_from-blocked :
      (r : Rms) (j : Job) (js : List Job) (ns : List ℤ)
      → search_servers (record r { job_queue = js }) j.nodes j.need_memory j.cores true
        ≡ ok (found_at r j ns)
      → fits r j ≡ false
      → find_from (suc n) r (j ∷ js) ≡ ok (record r { job_queue = j ∷ js })
  unfolding find_from
  find_from-blocked r j js ns e f = rw (e, f, find_from) (rw (enqueue_front js j) refl)

-- The queue is empty after the start of its last job.
Served-last :
    (n : ℕ) (r p : Rms) (j : Job) (m : Result Rms)
    → m ≡ next n p p.job_queue
    → p.job_queue ≡ []
    → Queued p []
    → Served r (j ∷ []) m
Served-last n r p j m e left h = record {
  final = p;
  returns = e ∙ ap (next n p) left;
  started = j ∷ [];
  prefix_order = ap (◌∷◌ j) (sym left);
  ready = subst (Queued p) (sym left) h;
  blocked = subst (HeadBlocked p) (sym left) tt;
  wide = λ _. subst (AllWide (loads p.servers)) (sym left) tt;
}

-- Otherwise the search goes on with what is left.
Served-more :
    (n : ℕ) (r p : Rms) (j k : Job) (ks : List Job) (m : Result Rms)
    → Started (record r { job_queue = k ∷ ks }) j p
    → m ≡ next n p p.job_queue
    → p.job_queue ≡ k ∷ ks
    → Served p (k ∷ ks) (find_from n p (k ∷ ks))
    → Served r (j ∷ k ∷ ks) m
Served-more n r p j k ks m d e left s = record {
  final = s.final;
  returns = e ∙ ap (next n p) left ∙ s.returns;
  started = j ∷ s.started;
  prefix_order = ap (◌∷◌ j) s.prefix_order;
  ready = s.ready;
  blocked = s.blocked;
  wide = λ a. s.wide (AllWide-each (loads r.servers) (loads p.servers) (k ∷ ks) d.wide a.1);
}

Served-blocked :
    (n : ℕ) (r : Rms) (j : Job) (js : List Job) (ns : List ℤ)
    → Queued r (j ∷ js)
    → search_servers (record r { job_queue = js }) j.nodes j.need_memory j.cores true
      ≡ ok (found_at r j ns)
    → fits r j ≡ false
    → Served r (j ∷ js) (find_from (suc n) r (j ∷ js))
Served-blocked n r j js ns h e blocked = record {
  final = record r { job_queue = j ∷ js };
  returns = find_from-blocked n r j js ns e blocked;
  started = [];
  prefix_order = refl;
  ready = Queued-queue r (j ∷ js) h;
  blocked = blocked;
  wide = λ a. a;
}

find_from-Served :
    (n : ℕ) (r : Rms) (j : Job) (js : List Job)
    → suc (length js) ≤ n
    → Queued r (j ∷ js)
    → Served r (j ∷ js) (find_from n r (j ∷ js))
find_from-Served zero r j js l h = absurd (omega arith)
find_from-Served (suc n) r j [] l h =
    let (ns, e, start) =
      attempt (record r { job_queue = [] }) j (HasServers-queue r [] h.has_servers) h.sound
        h.waiting.0 in
    elim (Bool-cases (fits r j)) [
      | inl does ↦
          let (p, u, s) = start does in
          Served-last n r p j _ (find_from-found n r p j [] ns e does u) s.frame.same_queue (
            Started-Queued (record r { job_queue = [] }) p j [] s h.owners.0 h.waiting.1 h.owners.1)
      | inr blocked ↦ Served-blocked n r j [] ns h e blocked
    ]
find_from-Served (suc n) r j (k ∷ ks) l h =
    let r' = record r { job_queue = k ∷ ks } in
    let (ns, e, start) =
      attempt r' j (HasServers-queue r (k ∷ ks) h.has_servers) h.sound h.waiting.0 in
    elim (Bool-cases (fits r j)) [
      | inl does ↦
          let (p, u, s) = start does in
          Served-more n r p j k ks _ s (find_from-found n r p j (k ∷ ks) ns e does u)
            s.frame.same_queue
            (find_from-Served n p k ks (omega arith)
              (Started-Queued r' p j (k ∷ ks) s h.owners.0 h.waiting.1 h.owners.1))
      | inr blocked ↦ Served-blocked n r j (k ∷ ks) ns h e blocked
    ]

-- On a queue that is not empty, whose jobs wait, with the servers in order and none overcommitted,
-- findResources ends without a fault: it starts a prefix of the queue and keeps the rest in order,
-- of which the first job, if there is one, does not fit on the servers. The rest waits, and the
-- servers are still in order and none overcommitted. When no job of the queue needs more cores than
-- a server has, none of the rest does afterwards.
pub find_resources-Served :
    (r : Rms) → r.job_queue ≢ [] → Queued r r.job_queue → Served r r.job_queue (find_resources r)
unfolding find_resources
find_resources-Served r ne h = from r.job_queue ne h
  where
    from : (q : List Job) → q ≢ [] → Queued r q → Served r q (find_from (length q) r q)
    from [] ne h' = absurd (ne refl)
    from (j ∷ js) ne h' = find_from-Served (suc (length js)) r j js (omega arith) h'

-- ===== src/Rms/Dequeue/Whole.antt =====
-- dequeue under all its policies.
use mathlib.Core.Path.{subst}
use cplusplus_projects.Common.{
  ℕ, ◌<◌, ◌≡◌, ◌≢◌, refl, sym, ap, ◌∙◌, List, [], ◌∷◌, Result, ok, ltb, ltb→lt, ◌==◌, ◌>>=◌, arith,
  Bool-cases, inl, inr, All, length, length-map, if◌then◌else◌,
}
use cplusplus_projects.Rms.State.{Job, Rms}
use cplusplus_projects.Rms.Connect.Load.{load_of, loads}
use cplusplus_projects.Rms.Estimate.Sure.{AllWide}
use cplusplus_projects.Rms.Connect.Capacity.{IsSound}
use cplusplus_projects.Rms.Sleep.{check_servers}
use cplusplus_projects.Rms.Sleep.Suspended.{Checked, check_servers-Checked}
use cplusplus_projects.Rms.Dequeue.{
  find_resources, check_if_aware, backfill, first_fit, best_fit, dequeue,
}
use cplusplus_projects.Rms.Dequeue.Ready.{Ready, Ready-Queued, Queued-Ready, IsWaiting, HasOwners}
use cplusplus_projects.Rms.Dequeue.Fifo.{Served, find_resources-Served}
use cplusplus_projects.Rms.Dequeue.Remove.{
  Sublist, Sublist-refl, Sublist-trans, Sublist-append, Kept-Sublist,
}
use cplusplus_projects.Rms.Dequeue.FirstFit.{Filled, first_fit-Filled}
use cplusplus_projects.Rms.Dequeue.BestFit.{best_fit-Filled}

-- The result is a state that is ready for its queue, which is what is left of `q`, in order.
pub record Dequeued (q : List Job) (m : Result Rms) : Type 0 where
  pub final : Rms
  pub returns : m ≡ ok final
  pub ready : Ready final final.job_queue
  pub left : Sublist final.job_queue q

-- Servers may be suspended between two steps.
pub Checked-Ready : (r p : Rms) → Checked r p → Ready r r.job_queue → Ready p p.job_queue
Checked-Ready r p c h = record {
  has_servers = record {
    numbered = c.numbered h.has_servers.numbered;
    counted =
        c.same_count
        ∙ h.has_servers.counted
        ∙ sym (length-map load_of r.servers)
        ∙ ap length (sym c.same_loads)
        ∙ length-map load_of p.servers;
  };
  sound = subst (All IsSound) (sym c.same_loads) h.sound;
  waiting =
      subst (λ q. All (IsWaiting p.clients) q) (sym c.same_queue)
        (subst (λ cs. All (IsWaiting cs) r.job_queue) (sym c.same_clients) h.waiting);
  owners = subst HasOwners (sym c.same_queue) h.owners;
  wide =
      subst (AllWide (loads p.servers)) (sym c.same_queue)
        (subst (λ ls. AllWide ls r.job_queue) (sym c.same_loads) h.wide);
}

pub check_if_aware-Dequeued :
    (r : Rms) → Ready r r.job_queue → Dequeued r.job_queue (check_if_aware r)
check_if_aware-Dequeued r h = elim (Bool-cases r.energy_aware) [
  | inr off ↦ record {
    final = r;
    returns = ap (λ b. if b then check_servers r else ok r) off;
    ready = h;
    left = Sublist-refl r.job_queue;
  }
  | inl on ↦
      let (p, e, c) = check_servers-Checked r h.has_servers h.sound h.wide in
      record {
        final = p;
        returns = ap (λ b. if b then check_servers r else ok r) on ∙ e;
        ready = Checked-Ready r p c h;
        left = subst (λ q. Sublist q r.job_queue) (sym c.same_queue) (Sublist-refl r.job_queue);
      }
]

-- One step after another.
Dequeued-then :
    (q : List Job) (m : Result Rms) (next : Rms → Result Rms)
    → Dequeued q m
    → ((p : Rms) → Ready p p.job_queue → Dequeued p.job_queue (next p))
    → Dequeued q (m >>= next)
Dequeued-then q m next d f =
    let e = f d.final d.ready in
    record {
      final = e.final;
      returns = ap (λ n. n >>= next) d.returns ∙ e.returns;
      ready = e.ready;
      left = Sublist-trans e.left d.left;
    }

Filled-Dequeued : (r : Rms) (m : Result Rms) → Filled r m → Dequeued r.job_queue m
Filled-Dequeued r m f = record {
  final = f.final;
  returns = f.returns;
  ready = f.ready;
  left = Kept-Sublist r.job_queue f.final.job_queue f.kept;
}

Served-Dequeued :
    (r : Rms) (q : List Job) (m : Result Rms)
    → AllWide (loads r.servers) q
    → Served r q m
    → Dequeued q m
Served-Dequeued r q m a s = record {
  final = s.final;
  returns = s.returns;
  ready = Queued-Ready s.final s.final.job_queue s.ready (s.wide a);
  left =
      subst (Sublist s.final.job_queue) (sym s.prefix_order)
        (Sublist-append s.started s.final.job_queue);
}

backfill-Dequeued :
    (fit : ℕ → Rms → Result Rms)
    → ((p : Rms)
        → Ready p p.job_queue
        → 1 < length p.job_queue
        → Filled p (fit (length p.job_queue) p))
    → (p : Rms) → Ready p p.job_queue
    → Dequeued p.job_queue (backfill fit p)
unfolding backfill
backfill-Dequeued fit fills p h = elim (Bool-cases (ltb 1 (length p.job_queue))) [
  | inr short ↦
      rw (short, backfill)
        (record { final = p; returns = refl; ready = h; left = Sublist-refl p.job_queue })
  | inl more ↦
      rw (more, backfill)
        (Dequeued-then p.job_queue _ check_if_aware
          (Filled-Dequeued p _ (fills p h (ltb→lt _ _ more))) check_if_aware-Dequeued)
]

-- The three policies on a queue that is not empty.
unfoldable policy : Rms → Result Rms
policy r =
    if r.scheduling == 1
    then (find_resources r >>= check_if_aware)
    else (if r.scheduling == 2
        then (find_resources r >>= backfill (λ n p. first_fit n p 1))
        else (if r.scheduling == 3 then (find_resources r >>= backfill best_fit) else ok r))

module _ (r : Rms) (h : Ready r r.job_queue) (ne : r.job_queue ≢ []) where
  serve : Dequeued r.job_queue (find_resources r)
  serve =
      Served-Dequeued r r.job_queue (find_resources r) h.wide
        (find_resources-Served r ne (Ready-Queued r r.job_queue h))

  policy-Dequeued : Dequeued r.job_queue (policy r)
  unfolding policy
  policy-Dequeued = elim (Bool-cases (r.scheduling == 1)) [
    | inl fifo ↦
        rw (fifo, policy)
          (Dequeued-then r.job_queue (find_resources r) check_if_aware serve
            check_if_aware-Dequeued)
    | inr no_fifo ↦ elim (Bool-cases (r.scheduling == 2)) [
      | inl first ↦
          rw (no_fifo, first, policy)
            (Dequeued-then r.job_queue (find_resources r) _ serve (
              backfill-Dequeued (λ n p. first_fit n p 1)
                (λ p h' l.
                  first_fit-Filled (length p.job_queue) p 1 h' (omega arith) l (omega arith))))
      | inr no_first ↦ elim (Bool-cases (r.scheduling == 3)) [
        | inl best ↦
            rw (no_fifo, no_first, best, policy)
              (Dequeued-then r.job_queue (find_resources r) _ serve (
                backfill-Dequeued best_fit
                  (λ p h' l. best_fit-Filled (length p.job_queue) p h' l (omega arith))))
        | inr no_best ↦
            rw (no_fifo, no_first, no_best, policy)
              (record { final = r; returns = refl; ready = h; left = Sublist-refl r.job_queue })
      ]
    ]
  ]

cons_not_nil : {j : Job} {js : List Job} → j ∷ js ≢ []
cons_not_nil = λ e. absurd cc

abbrev by_queue : Rms → List Job → Result Rms
by_queue r q = elim q [ [] ↦ check_if_aware r | j ∷ js ↦ policy r ]

dequeue-by_queue : (r : Rms) (q : List Job) → r.job_queue ≡ q → dequeue r ≡ by_queue r q
unfolding dequeue policy
dequeue-by_queue r q e = ap (λ q'. by_queue r q') e

-- In a state that is ready for its queue, dequeue ends without a fault under every scheduling
-- policy: first come, first served, the backfill by the first job that fits, and the one by the
-- best. The new queue is what is left of the old one, in order, and the new state is ready for it:
-- no server has more cores in use than it has, and the cores in use are those of its jobs.
pub dequeue-Dequeued : (r : Rms) → Ready r r.job_queue → Dequeued r.job_queue (dequeue r)
dequeue-Dequeued r h = from r.job_queue refl
  where
    from : (q : List Job) → r.job_queue ≡ q → Dequeued r.job_queue (dequeue r)
    from [] e =
        subst (Dequeued r.job_queue) (sym (dequeue-by_queue r [] e)) (check_if_aware-Dequeued r h)
    from (j ∷ js) e =
        subst (Dequeued r.job_queue) (sym (dequeue-by_queue r (j ∷ js) e))
          (policy-Dequeued r h (λ none. absurd (cons_not_nil (sym e ∙ none))))

-- ===== src/Rms/Request/Admitted.antt =====
-- A request keeps the system ready for its queue.
use mathlib.Core.Path.{subst}
use cplusplus_projects.Common.{
  ℕ, ◌≡◌, ◌≢◌, refl, sym, ap, ◌∙◌, ◌==◌, Bool, true, ◌||◌, List, [], ◌∷◌, ◌++◌, ℤ, pos, ◌≤ℤ◌,
  Result, ok, fault, Fault, ◌>>=◌, arith, Bool-cases, inl, inr, All, ◌<◌, length, if◌then◌else◌,
}
use cplusplus_projects.Rms.State.{Job, Client, Rms, lookup_client, add_client_info}
use cplusplus_projects.Rms.Search.{search_servers}
use cplusplus_projects.Rms.Queue.{is_interactive, insert_before_first, enqueue_job}
use cplusplus_projects.Rms.Queue.Order.{
  IsOrdered, makes_way, enqueue_job-insert, enqueue_job-IsOrdered,
}
use cplusplus_projects.Rms.Connect.Load.{loads}
use cplusplus_projects.Rms.Estimate.Sure.{IsWide, AllWide}
use cplusplus_projects.Rms.Connect.{init_server_connection}
use cplusplus_projects.Rms.Dequeue.{ends_before_start, check_if_aware}
use cplusplus_projects.Rms.Dequeue.Ready.{
  IsWaiting, HasOwners, Ready, fits, found_at, attempt, Started-Ready,
}
use cplusplus_projects.Rms.Dequeue.Pull.{get_estimated_start_time_total}
use cplusplus_projects.Rms.Dequeue.Remove.{Sublist, sub_nil, sub_skip, sub_keep, All-Sublist}
use cplusplus_projects.Rms.Dequeue.Whole.{check_if_aware-Dequeued}
use cplusplus_projects.Rms.Request.{
  Request, job_of, put_in_queue, start_or_queue, start_if_before, check_queue, receive_request,
}

-- What is left of an ordered queue is ordered.
pub IsOrdered-Sublist : {xs ys : List Job} → Sublist xs ys → IsOrdered ys → IsOrdered xs
IsOrdered-Sublist sub_nil o = tt
IsOrdered-Sublist (sub_skip y s) o = IsOrdered-Sublist s o.1
IsOrdered-Sublist (sub_keep y s) o = (All-Sublist _ s o.0, IsOrdered-Sublist s o.1)

-- The handler's result, with `q` the queue before.
pub record Admitted (q : List Job) (m : Result Rms) : Type 0 where
  pub final : Rms
  pub returns : m ≡ ok final
  pub ready : Ready final final.job_queue
  pub ordered : IsOrdered q → IsOrdered final.job_queue

-- A new job at any place of the queue.
module _ (P : Job → Type 0) where
  All-insert :
      (f : Job → Bool) (m : Job) (q : List Job) → P m → All P q → All P (insert_before_first f m q)
  unfolding insert_before_first
  All-insert f m [] p h = (p, tt)
  All-insert f m (x ∷ q) p h = elim (Bool-cases (f x)) [
    | inl here ↦ rw here (p, h)
    | inr on ↦ rw on (h.0, All-insert f m q p h.1)
  ]

HasOwners-insert :
    (f : Job → Bool) (m : Job) (q : List Job)
    → All (λ k. m.client_address ≢ k.client_address) q
    → HasOwners q
    → HasOwners (insert_before_first f m q)
unfolding insert_before_first
HasOwners-insert f m [] ne h = (tt, tt)
HasOwners-insert f m (x ∷ q) ne h = elim (Bool-cases (f x)) [
  | inl here ↦ rw here (ne, h)
  | inr on ↦ rw on (
    All-insert (λ k. x.client_address ≢ k.client_address) f m q (λ e. ne.0 (sym e)) h.0,
    HasOwners-insert f m q ne.1 h.1,
  )
]

module _ (r : Rms) (j : Job) (h : Ready r r.job_queue) (w : IsWaiting r.clients j)
    (ne : All (λ k. j.client_address ≢ k.client_address) r.job_queue)
    (wide : All (IsWide j.cores) (loads r.servers)) where
  put_in_queue-Ready : Ready (put_in_queue r j) (enqueue_job r.job_queue j)
  put_in_queue-Ready =
      let e = enqueue_job-insert r.job_queue j in
      record {
        has_servers = record { numbered = h.has_servers.numbered; counted = h.has_servers.counted };
        sound = h.sound;
        waiting =
            subst (All (IsWaiting r.clients)) (sym e)
              (All-insert (IsWaiting r.clients) (makes_way j) j r.job_queue w h.waiting);
        owners = subst HasOwners (sym e) (HasOwners-insert (makes_way j) j r.job_queue ne h.owners);
        wide = subst (AllWide (loads r.servers)) (sym e) (
            All-insert (λ k. All (IsWide k.cores) (loads r.servers)) (makes_way j) j r.job_queue
              wide h.wide);
      }

  Admitted-queued : (m : Result Rms) → m ≡ ok (put_in_queue r j) → Admitted r.job_queue m
  Admitted-queued m e = record {
    final = put_in_queue r j;
    returns = e;
    ready = put_in_queue-Ready;
    ordered = enqueue_job-IsOrdered r.job_queue j;
  }

  -- The search for the job, and its start if it fits.
  try :
      (ns : List ℤ) × (search_servers r j.nodes j.need_memory j.cores true ≡ ok (found_at r j ns))
      × (fits r j ≡ true
          → (p : Rms) × (init_server_connection r ns j ≡ ok p)
            × Ready p p.job_queue
            × (IsOrdered r.job_queue → IsOrdered p.job_queue))
  try =
      let (ns, e, start) = attempt r j h.has_servers h.sound w in
      (
        ns,
        e,
        λ does.
            let (p, u, s) = start does in
            (
              p,
              u,
              subst (Ready p) (sym s.frame.same_queue)
                  (Started-Ready r p j r.job_queue s ne h.waiting h.owners h.wide),
              subst IsOrdered (sym s.frame.same_queue),
            ),
      )

  start_or_queue-Admitted : Admitted r.job_queue (start_or_queue r j)
  unfolding start_or_queue
  start_or_queue-Admitted =
      let (ns, e, start) = try in
      elim (Bool-cases (fits r j)) [
        | inr unfit ↦ Admitted-queued _ (rw (e, unfit, start_or_queue) refl)
        | inl fit ↦
            let (p, u, ready, ordered) = start fit in
            record {
              final = p;
              returns = rw (e, fit, start_or_queue) u;
              ready = ready;
              ordered = ordered;
            }
      ]

  start_if_before-Admitted : 0 < length r.job_queue → Admitted r.job_queue (start_if_before r j)
  unfolding start_if_before
  start_if_before-Admitted l =
      let (ns, e, start) = try in
      let (t, et) = get_estimated_start_time_total r h l in
      elim (Bool-cases (fits r j)) [
        | inr unfit ↦ Admitted-queued _ (rw (e, unfit, start_if_before) refl)
        | inl fit ↦ elim (Bool-cases (ends_before_start r j t || is_interactive j)) [
          | inr late ↦ Admitted-queued _ (rw (e, fit, start_if_before) (rw (et, late) refl))
          | inl early ↦
              let (p, u, ready, ordered) = start fit in
              record {
                final = p;
                returns = rw (e, fit, start_if_before) (rw (et, early) u);
                ready = ready;
                ordered = ordered;
              }
        ]
      ]

-- The handler's choice by the queue and the policy.
abbrev choose : Rms → Job → List Job → Result Rms
choose r j q = elim q [
  | [] ↦ start_or_queue r j >>= check_if_aware
  | k ∷ ks ↦
      if r.scheduling == 1
      then (if is_interactive j then start_or_queue r j else ok (put_in_queue r j))
      else start_if_before r j
]

check_queue-choose :
    (r : Rms) (j : Job) (q : List Job) → r.job_queue ≡ q → check_queue r j ≡ choose r j q
unfolding check_queue
check_queue-choose r j q e = ap (choose r j) e

Admitted-aware : (q : List Job) (m : Result Rms) → Admitted q m → Admitted q (m >>= check_if_aware)
Admitted-aware q m a =
    let d = check_if_aware-Dequeued a.final a.ready in
    record {
      final = d.final;
      returns = ap (λ n. n >>= check_if_aware) a.returns ∙ d.returns;
      ready = d.ready;
      ordered = λ o. IsOrdered-Sublist d.left (a.ordered o);
    }

check_queue-Admitted :
    (r : Rms) (j : Job)
    → Ready r r.job_queue
    → IsWaiting r.clients j
    → All (λ k. j.client_address ≢ k.client_address) r.job_queue
    → All (IsWide j.cores) (loads r.servers)
    → Admitted r.job_queue (check_queue r j)
check_queue-Admitted r j h w ne wide = from r.job_queue refl
  where
    from : (q : List Job) → r.job_queue ≡ q → Admitted r.job_queue (check_queue r j)
    from [] e =
        subst (Admitted r.job_queue) (sym (check_queue-choose r j [] e)) (
          Admitted-aware r.job_queue (start_or_queue r j) (start_or_queue-Admitted r j h w ne wide))
    from (k ∷ ks) e =
        subst (Admitted r.job_queue) (sym (check_queue-choose r j (k ∷ ks) e))
          (elim (Bool-cases (r.scheduling == 1)) [
            | inl fifo ↦ elim (Bool-cases (is_interactive j)) [
              | inl now ↦ rw (fifo, now) (start_or_queue-Admitted r j h w ne wide)
              | inr batch ↦ rw (fifo, batch) (Admitted-queued r j h w ne wide _ refl)
            ]
            | inr backfilled ↦ rw backfilled (
                start_if_before-Admitted r j h w ne wide
                  (subst (λ q. 0 < length q) (sym e) (omega arith)))
          ])

-- A client at the end of the list is found under a fresh address.
lookup_client-append_new :
    (cs : List Client) (c : Client)
    → lookup_client cs c.client_address ≡ fault Fault.null_client
    → lookup_client (cs ++ c ∷ []) c.client_address ≡ ok c
unfolding lookup_client
lookup_client-append_new [] c h = ground arith
lookup_client-append_new (d ∷ cs) c h = elim (Bool-cases (d.client_address == c.client_address)) [
  | inl same ↦ absurd (ok_not_fault (rw same at h))
  | inr other ↦ rw other (lookup_client-append_new cs c (rw other at h))
]
  where
    ok_not_fault : {A : Type 0} {a : A} {f : Fault} → ok a ≡ fault f → ⊥
    ok_not_fault e = cc

lookup_client-append_old :
    (cs ds : List Client) (b : ℕ) (c : Client)
    → lookup_client cs b ≡ ok c
    → lookup_client (cs ++ ds) b ≡ ok c
unfolding lookup_client
lookup_client-append_old [] ds b c h = cc
lookup_client-append_old (d ∷ cs) ds b c h = elim (Bool-cases (d.client_address == b)) [
  | inl same ↦ rw same (rw same at h)
  | inr other ↦ rw other (lookup_client-append_old cs ds b c (rw other at h))
]

IsWaiting-append :
    (cs ds : List Client) (q : List Job) → All (IsWaiting cs) q → All (IsWaiting (cs ++ ds)) q
IsWaiting-append cs ds [] h = tt
IsWaiting-append cs ds (j ∷ q) ((c, e, none_yet, nodes, cores), h) = (
  (c, lookup_client-append_old cs ds j.client_address c e, none_yet, nodes, cores),
  IsWaiting-append cs ds q h,
)

-- A job that waits is of a registered client.
fresh-others :
    (cs : List Client) (a : ℕ) (q : List Job)
    → lookup_client cs a ≡ fault Fault.null_client
    → All (IsWaiting cs) q
    → All (λ k. a ≢ k.client_address) q
fresh-others cs a [] fresh h = tt
fresh-others cs a (k ∷ q) fresh ((c, e, none_yet, nodes, cores), h) = (
  λ same. absurd (let e' : lookup_client cs a ≡ ok c = ap (lookup_client cs) same ∙ e in cc),
  fresh-others cs a q fresh h,
)

pub receive_request-Admitted :
    (r : Rms) (m : Request)
    → Ready r r.job_queue
    → pos 0 ≤ℤ m.cores
    → All (IsWide m.cores) (loads r.servers)
    → lookup_client r.clients m.client_address ≡ fault Fault.null_client
    → Admitted r.job_queue (receive_request r m)
unfolding receive_request add_client_info
receive_request-Admitted r m h cores wide fresh =
    let j = job_of m r.now in
    let p = add_client_info r m.uso_address j in
    check_queue-Admitted p j
      (record {
        has_servers = record { numbered = h.has_servers.numbered; counted = h.has_servers.counted };
        sound = h.sound;
        waiting = IsWaiting-append r.clients _ r.job_queue h.waiting;
        owners = h.owners;
        wide = h.wide;
      })
      (_, lookup_client-append_new r.clients _ fresh, refl, refl, cores)
      (fresh-others r.clients m.client_address r.job_queue fresh h.waiting) wide

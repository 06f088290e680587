-- ===== src/Rms/Finish/Handled.antt =====
-- The handler of a finish message.
use mathlib.Core.Path.{subst}
use cplusplus_projects.Common.{
  ℕ, suc, ◌≡◌, ◌≢◌, refl, sym, ap, ◌∙◌, ◌==◌, Bool, true, false, List, ℤ, pos, ◌+ℤ◌, ◌≤ℤ◌, ◌<ℤ◌,
  leb_ℤ, if◌then◌else◌, ok, arith, Bool-cases, inl, inr, All, +ℤ_parts,
}
use cplusplus_projects.Rms.State.{
  Server, Client, Effect, Rms, emit, lookup_server, lookup_client, delete_client,
}
use cplusplus_projects.Rms.Connect.Clients.{
  update_client_lem, lookup_client-update_ne, lookup_client-address,
}
use cplusplus_projects.Rms.Connect.Load.{loads}
use cplusplus_projects.Rms.Estimate.Sure.{AllWide-each}
use cplusplus_projects.Rms.Dequeue.Ready.{Ready}
use cplusplus_projects.Rms.Dequeue.Remove.{All-Sublist}
use cplusplus_projects.Rms.Dequeue.Whole.{dequeue-Dequeued}
use cplusplus_projects.Rms.Dequeue.Registered.{dequeue-addresses}
use cplusplus_projects.Rms.Request.Admitted.{Admitted, IsOrdered-Sublist}
use cplusplus_projects.Rms.Queue.Order.{IsOrdered}
use cplusplus_projects.Rms.Finish.{
  finish_one, clear_output, complete, forget_if_federated, increment_client_output_data,
  get_client_output_data, free_server, remove_server_jobs, finish_client, finish_if_last,
  finish_established, receive_finish,
}
use cplusplus_projects.Rms.Finish.Jobs.{HoldsOne}
use cplusplus_projects.Rms.Finish.Freed.{IsWaiting-others, lookup_client-delete_ne, free_and_drop}

-- A change of the clients that spares all but client `a`, who has no job in the queue.
Ready-clients :
    (r : Rms) (ds : List Client) (a : ℕ)
    → Ready r r.job_queue
    → ((b : ℕ) → a ≢ b → lookup_client ds b ≡ lookup_client r.clients b)
    → All (λ k. a ≢ k.client_address) r.job_queue
    → Ready (record r { clients = ds }) r.job_queue
Ready-clients r ds a h same ne = record {
  has_servers = record { numbered = h.has_servers.numbered; counted = h.has_servers.counted };
  sound = h.sound;
  waiting = IsWaiting-others r.clients ds a r.job_queue same ne h.waiting;
  owners = h.owners;
  wide = h.wide;
}

-- Fields that the queue's readiness does not read may change.
Ready-complete :
    (r : Rms) (a done : ℕ)
    → Ready r r.job_queue
    → Ready (record (complete a r) { jobs_completed = done }) r.job_queue
Ready-complete r a done h = record {
  has_servers = record { numbered = h.has_servers.numbered; counted = h.has_servers.counted };
  sound = h.sound;
  waiting = h.waiting;
  owners = h.owners;
  wide = h.wide;
}

Ready-forget :
    (r : Rms) (a : ℕ)
    → Ready r r.job_queue
    → All (λ k. a ≢ k.client_address) r.job_queue
    → Ready (forget_if_federated a r) (forget_if_federated a r).job_queue
Ready-forget r a h ne = from r.federated
  where
    from :
        (b : Bool)
        → Ready
            (if b then record r { clients = delete_client r.clients a } else r)
            (if b then record r { clients = delete_client r.clients a } else r).job_queue
    from true =
        Ready-clients r (delete_client r.clients a) a h
          (λ b ne'. lookup_client-delete_ne r.clients a b ne') ne
    from false = h

forget-queue : (r : Rms) (a : ℕ) → (forget_if_federated a r).job_queue ≡ r.job_queue
forget-queue r a = from r.federated
  where
    from :
        (b : Bool)
        → (if b then record r { clients = delete_client r.clients a } else r).job_queue
          ≡ r.job_queue
    from true = refl
    from false = refl

pub finish_established-Admitted :
    (r : Rms) (a : ℕ)
    → Ready r r.job_queue
    → All (λ k. a ≢ k.client_address) r.job_queue
    → Admitted r.job_queue (ok (finish_established r a))
unfolding finish_established
finish_established-Admitted r a h ne = from r.federated
  where
    from :
        (b : Bool)
        → Admitted r.job_queue
            (ok (if b then r else record r { clients = delete_client r.clients a }))
    from true = record { final = r; returns = refl; ready = h; ordered = λ o. o }
    from false = record {
      final = record r { clients = delete_client r.clients a };
      returns = refl;
      ready =
          Ready-clients r (delete_client r.clients a) a h
            (λ b other. lookup_client-delete_ne r.clients a b other) ne;
      ordered = λ o. o;
    }

finish_client-Admitted :
    (r : Rms) (a : ℕ) (c : Client)
    → Ready r r.job_queue
    → lookup_client r.clients a ≡ ok c
    → pos 0 <ℤ c.output_data
    → All (λ k. a ≢ k.client_address) r.job_queue
    → Admitted r.job_queue (finish_client r a)
unfolding finish_client get_client_output_data
finish_client-Admitted r a c h e positive ne =
    let r' = record (complete a r) { jobs_completed = suc r.jobs_completed } in
    let d = dequeue-Dequeued r' (Ready-complete r a (suc r.jobs_completed) h) in
    let p = d.final in
    let (c', e') =
      lookup_client-address r.clients p.clients a c (dequeue-addresses r' p d.returns) e in
    let (cs, u, e'') = update_client_lem p.clients a clear_output c' (λ x. refl) e' in
    let ne' = All-Sublist _ d.left ne in
    let some_output : leb_ℤ c.output_data (pos 0) ≡ false = ground (arith, positive) in
    record {
      final =
          forget_if_federated a
            (record (emit (Effect.finish_job a c'.uso_address c.output_data) p) { clients = cs });
      returns = rw (e, some_output) (rw (d.returns) (rw e' (rw u refl)));
      ordered = λ o. subst IsOrdered (sym (forget-queue _ a)) (IsOrdered-Sublist d.left o);
      ready =
          Ready-forget
            (record (emit (Effect.finish_job a c'.uso_address c.output_data) p) { clients = cs }) a
            (Ready-clients (emit (Effect.finish_job a c'.uso_address c.output_data) p) cs a
              (record {
                has_servers = record {
                  numbered = d.ready.has_servers.numbered;
                  counted = d.ready.has_servers.counted;
                };
                sound = d.ready.sound;
                waiting = d.ready.waiting;
                owners = d.ready.owners;
                wide = d.ready.wide;
              })
              (λ b other. lookup_client-update_ne p.clients cs a b clear_output (λ x. refl) u other)
              ne')
            ne';
    }

finish_if_last-Admitted :
    (r : Rms) (a : ℕ) (c : Client)
    → Ready r r.job_queue
    → lookup_client r.clients a ≡ ok c
    → pos 0 <ℤ c.output_data
    → All (λ k. a ≢ k.client_address) r.job_queue
    → Admitted r.job_queue (finish_if_last r a)
unfolding finish_if_last
finish_if_last-Admitted r a c h e positive ne = elim (Bool-cases (c.finished_servers == c.nodes)) [
  | inl last ↦
      let f = finish_client-Admitted r a c h e positive ne in
      record {
        final = f.final;
        returns = rw (e, finish_if_last) (by_last last ∙ f.returns);
        ready = f.ready;
        ordered = f.ordered;
      }
  | inr more ↦ record {
    final = r;
    returns = rw (e, finish_if_last) (by_last more);
    ready = h;
    ordered = λ o. o;
  }
]
  where
    by_last :
        {b : Bool}
        → (c.finished_servers == c.nodes) ≡ b
        → (elim (c.finished_servers == c.nodes) [ true ↦ finish_client r a | false ↦ ok r ])
          ≡ (elim b [ true ↦ finish_client r a | false ↦ ok r ])
    by_last q = ap (λ b'. elim b' [ true ↦ finish_client r a | false ↦ ok r ]) q

-- In a state that is ready for its queue, a finish message with some output data, from a server of
-- whose jobs none needs a negative number of cores and exactly one is of the client, with the
-- client's number of cores, and for a registered client that has no job in the queue and no
-- negative amount of output data, is handled without a fault under every policy. The state is then
-- ready for its queue: the cores in use of every server are still those of its jobs, and no more
-- than it has. An ordered queue stays ordered.
pub receive_finish-Admitted :
    (r : Rms) (n : ℤ) (a : ℕ) (bytes : ℤ) (c : Client) (s : Server)
    → Ready r r.job_queue
    → lookup_client r.clients a ≡ ok c
    → lookup_server r.servers n ≡ ok s
    → pos 0 <ℤ bytes
    → pos 0 ≤ℤ c.output_data
    → HoldsOne a c.cores s.jobs
    → All (λ j. pos 0 ≤ℤ j.cores) s.jobs
    → All (λ k. a ≢ k.client_address) r.job_queue
    → Admitted r.job_queue (receive_finish r n a bytes)
unfolding receive_finish increment_client_output_data free_server remove_server_jobs
receive_finish-Admitted r n a bytes c s h e there some_bytes output one nonneg ne =
    let add : Client → Client = λ d. record d { output_data = d.output_data +ℤ bytes } in
    let (cs, u, e1) = update_client_lem r.clients a add c (λ x. refl) e in
    let (ys, zs, ws, u1, u2, u3, sound, numbered, size, wide) =
      free_and_drop a (add c) s r.servers n there one nonneg h.sound h.has_servers.numbered in
    let (ds, u4, e2) = update_client_lem cs a finish_one (add c) (λ x. refl) e1 in
    let some_data : leb_ℤ bytes (pos 0) ≡ false = ground (arith, some_bytes) in
    let positive : pos 0 <ℤ c.output_data +ℤ bytes =
      omega (arith, some_bytes, output, +ℤ_parts c.output_data bytes) in
    let more : leb_ℤ (c.output_data +ℤ bytes) (pos 0) ≡ false = ground (arith, positive) in
    let p = record r { clients = ds; servers = ws } in
    let ready : Ready p p.job_queue = record {
      has_servers = record { numbered = numbered; counted = h.has_servers.counted ∙ sym size };
      sound = sound;
      waiting =
          IsWaiting-others r.clients ds a r.job_queue
            (λ b other.
              lookup_client-update_ne cs ds a b finish_one (λ x. refl) u4 other
              ∙ lookup_client-update_ne r.clients cs a b add (λ x. refl) u other)
            ne h.waiting;
      owners = h.owners;
      wide = AllWide-each (loads r.servers) (loads ws) r.job_queue wide h.wide;
    } in
    let f = finish_if_last-Admitted p a (finish_one (add c)) ready e2 positive ne in
    record {
      final = f.final;
      returns = rw (some_data, e) (rw (u, more) (rw e1 (rw u1 (rw u2 (rw u3 (rw u4 f.returns))))));
      ready = f.ready;
      ordered = f.ordered;
    }

-- ===== src/Rms/Finish/Woken.antt =====
-- The handler of a wake-up response.
use mathlib.Core.Path.{subst}
use cplusplus_projects.Common.{
  ℕ, suc, ◌≡◌, ◌≢◌, refl, sym, ap, ◌∙◌, ◌==◌, Bool, true, false, Result, ok, ◌>>=◌, Bool-cases, inl,
  inr, All, length, length-map,
}
use cplusplus_projects.Rms.State.{Client, Rms, lookup_client}
use cplusplus_projects.Rms.Search.Outcome.{Distinct}
use cplusplus_projects.Rms.Connect.{send_client_requests}
use cplusplus_projects.Rms.Connect.Load.{Known, load_of, loads}
use cplusplus_projects.Rms.Estimate.Sure.{AllWide}
use cplusplus_projects.Rms.Connect.Clients.{update_client_lem, lookup_client-update_ne}
use cplusplus_projects.Rms.Connect.Charge.{send_client_requests-loads}
use cplusplus_projects.Rms.Connect.Capacity.{IsSound}
use cplusplus_projects.Rms.Connect.Total.{send_client_requests_total}
use cplusplus_projects.Rms.Connect.Frame.{send_client_requests-Frame}
use cplusplus_projects.Rms.Dequeue.{dequeue}
use cplusplus_projects.Rms.Dequeue.Ready.{IsWaiting, HasOwners, Ready}
use cplusplus_projects.Rms.Dequeue.Whole.{dequeue-Dequeued}
use cplusplus_projects.Rms.Request.Admitted.{Admitted, IsOrdered-Sublist}
use cplusplus_projects.Rms.Queue.Order.{IsOrdered}
use cplusplus_projects.Rms.Finish.{wake_one, receive_wakeup_response}
use cplusplus_projects.Rms.Finish.Freed.{IsWaiting-others}

-- The requests are sent to servers that are there, and what follows finds a ready state.
Ready-sent :
    (r p : Rms) (a : ℕ)
    → Ready r r.job_queue
    → All (λ k. a ≢ k.client_address) r.job_queue
    → send_client_requests r a ≡ ok p
    → Ready p p.job_queue
Ready-sent r p a h ne e =
    let f = send_client_requests-Frame a a r p e in
    let (same, numbered) = send_client_requests-loads 0 a r p e h.has_servers.numbered in
    record {
      has_servers = record {
        numbered = numbered;
        counted =
            f.same_count
            ∙ h.has_servers.counted
            ∙ sym (length-map load_of r.servers)
            ∙ ap length (sym same)
            ∙ length-map load_of p.servers;
      };
      sound = subst (All IsSound) (sym same) h.sound;
      waiting =
          subst (All (IsWaiting p.clients)) (sym f.same_queue)
            (IsWaiting-others r.clients p.clients a r.job_queue f.others ne h.waiting);
      owners = subst HasOwners (sym f.same_queue) h.owners;
      wide =
          subst (AllWide (loads p.servers)) (sym f.same_queue)
            (subst (λ ls. AllWide ls r.job_queue) (sym same) h.wide);
    }

-- In a state that is ready for its queue, a wake-up response for a registered client that has its
-- servers, distinct ones that are there and as many as its nodes, and that has no job in the queue,
-- is handled without a fault under every policy, and the state is then ready for its queue. An
-- ordered queue stays ordered.
pub receive_wakeup_response-Admitted :
    (r : Rms) (a : ℕ) (c : Client)
    → Ready r r.job_queue
    → lookup_client r.clients a ≡ ok c
    → length c.server_nmb ≡ c.nodes
    → All (Known r.servers) c.server_nmb
    → Distinct c.server_nmb
    → All (λ k. a ≢ k.client_address) r.job_queue
    → Admitted r.job_queue (receive_wakeup_response r a)
unfolding receive_wakeup_response
receive_wakeup_response-Admitted r a c h e size known distinct ne =
    let (cs, u, e1) = update_client_lem r.clients a wake_one c (λ x. refl) e in
    let p : Rms = record r { clients = cs } in
    let ready : Ready p p.job_queue = record {
      has_servers = record { numbered = h.has_servers.numbered; counted = h.has_servers.counted };
      sound = h.sound;
      waiting =
          IsWaiting-others r.clients cs a r.job_queue
            (λ b other. lookup_client-update_ne r.clients cs a b wake_one (λ x. refl) u other) ne
            h.waiting;
      owners = h.owners;
      wide = h.wide;
    } in
    let branch : Bool → Result Rms =
      λ b. elim b [ true ↦ send_client_requests p a >>= dequeue | false ↦ ok p ] in
    elim (Bool-cases (suc c.wakeup_nodes == c.needwakeup_nodes)) [
      | inr more ↦ record {
        final = p;
        returns = rw (u, e1) (ap branch more);
        ready = ready;
        ordered = λ o. o;
      }
      | inl last ↦
          let (q, u1) =
            send_client_requests_total p a c.server_nmb (wake_one c) e1 refl size known distinct in
          let d = dequeue-Dequeued q (Ready-sent p q a ready ne u1) in
          record {
            final = d.final;
            returns = rw (u, e1) (ap branch last ∙ ap (λ m. m >>= dequeue) u1 ∙ d.returns);
            ready = d.ready;
            ordered = λ o.
                IsOrdered-Sublist d.left
                  (subst IsOrdered (sym (send_client_requests-Frame a a p q u1).same_queue) o);
          }
    ]

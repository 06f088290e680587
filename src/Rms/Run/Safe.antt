-- ===== src/Rms/Run/Safe.antt =====
-- No run meets a fault, and every state of it is ready for its queue.
use mathlib.Core.Path.{subst}
use cplusplus_projects.Common.{
  ℕ, ◌≡◌, ◌≢◌, ap, List, [], ◌∷◌, refl, sym, ◌∙◌, false, ℤ, Result, ok, ok_inj, All,
}
use cplusplus_projects.Rms.State.{Rms, Job, Client, lookup_client, set_reserved}
use cplusplus_projects.Rms.Connect.Load.{
  Known, loads-update_same, update_server_total, update_server-Numbered,
}
use cplusplus_projects.Rms.Connect.Capacity.{IsSound}
use cplusplus_projects.Rms.Estimate.Sure.{AllWide}
use cplusplus_projects.Rms.Dequeue.Ready.{Ready, IsWaiting}
use cplusplus_projects.Rms.Request.Admitted.{Admitted, receive_request-Admitted}
use cplusplus_projects.Rms.Finish.{receive_sleep_response}
use cplusplus_projects.Rms.Finish.Freed.{length-update}
use cplusplus_projects.Rms.Finish.Handled.{receive_finish-Admitted, finish_established-Admitted}
use cplusplus_projects.Rms.Finish.Woken.{receive_wakeup_response-Admitted}
use cplusplus_projects.Rms.Initialize.{Parameters, initialize-Ready}
use cplusplus_projects.Rms.Run.{
  Event, Reachable, request, finish, woken, told, slept, tick, start, step,
}

receive_sleep_response-Admitted :
    (r : Rms) (n : ℤ)
    → Ready r r.job_queue
    → Known r.servers n
    → Admitted r.job_queue (receive_sleep_response r n)
unfolding receive_sleep_response
receive_sleep_response-Admitted r n h (s, e) =
    let (xs, u, e') = update_server_total (set_reserved false) (λ t. refl) r.servers n s e in
    record {
      final = record r { servers = xs };
      returns = rw u refl;
      ready = record {
        has_servers = record {
          numbered =
              update_server-Numbered (set_reserved false) (λ t. refl) 0 r.servers xs n u
                h.has_servers.numbered;
          counted =
              h.has_servers.counted ∙ sym (length-update (set_reserved false) r.servers xs n u);
        };
        sound =
            subst (All IsSound)
              (sym (loads-update_same (set_reserved false) r.servers xs n (λ t. refl) u)) h.sound;
        waiting = h.waiting;
        owners = h.owners;
        wide =
            subst (λ ls. AllWide ls r.job_queue)
              (sym (loads-update_same (set_reserved false) r.servers xs n (λ t. refl) u)) h.wide;
      };
      ordered = λ o. o;
    }

-- A client that has servers has no job in the queue, whose clients have none yet.
served-others :
    (cs : List Client) (a : ℕ) (c : Client) (q : List Job)
    → lookup_client cs a ≡ ok c
    → c.server_nmb ≢ []
    → All (IsWaiting cs) q
    → All (λ k. a ≢ k.client_address) q
served-others cs a c [] e ne w = tt
served-others cs a c (k ∷ q) e ne ((d, e', none_yet, nodes, cores), w) = (
  λ same.
      let one : c ≡ d = ok_inj (sym e ∙ ap (lookup_client cs) same ∙ e') in
      ne (ap (λ (x : Client). x.server_nmb) one ∙ none_yet),
  served-others cs a c q e ne w,
)

Event-Admitted :
    (r : Rms) (m : Result Rms) → Ready r r.job_queue → Event r m → Admitted r.job_queue m
Event-Admitted r _ h (request m cores wide fresh) = receive_request-Admitted r m h cores wide fresh
Event-Admitted r _ h (finish n a bytes c s e there some_bytes output one nonneg ne) =
    receive_finish-Admitted r n a bytes c s h e there some_bytes output one nonneg
      (served-others r.clients a c r.job_queue e ne h.waiting)
Event-Admitted r _ h (woken a c e size known distinct ne) =
    receive_wakeup_response-Admitted r a c h e size known distinct
      (served-others r.clients a c r.job_queue e ne h.waiting)
Event-Admitted r _ h (told a c e ne) =
    finish_established-Admitted r a h (served-others r.clients a c r.job_queue e ne h.waiting)
Event-Admitted r _ h (slept n known) = receive_sleep_response-Admitted r n h known
Event-Admitted r _ h (tick t later) = record {
  final = record r { now = t };
  returns = refl;
  ready = record {
    has_servers = record { numbered = h.has_servers.numbered; counted = h.has_servers.counted };
    sound = h.sound;
    waiting = h.waiting;
    owners = h.owners;
    wide = h.wide;
  };
  ordered = λ o. o;
}

-- Every state of every run, in which the messages are as `Event` assumes, is ready for its queue:
-- the servers keep their numbers, no server has more cores in use than it has, the cores in use are
-- those of its jobs, every job in the queue is of a registered client without servers, needs no
-- more cores than any server has, and no two of them are of one client.
pub Reachable-Ready : (c : Parameters) (r : Rms) → Reachable c r → Ready r r.job_queue
Reachable-Ready c _ start = initialize-Ready c
Reachable-Ready c q (step {r} run event) =
    let a = Event-Admitted r (ok q) (Reachable-Ready c r run) event in
    subst (λ p. Ready p p.job_queue) (sym (ok_inj a.returns)) a.ready

pub Reachable-Admitted :
    (c : Parameters) (r : Rms) (m : Result Rms) → Reachable c r → Event r m → Admitted r.job_queue m
Reachable-Admitted c r m run event = Event-Admitted r m (Reachable-Ready c r run) event

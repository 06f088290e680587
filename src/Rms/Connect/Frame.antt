-- ===== src/Rms/Connect/Frame.antt =====
-- What initServerConnection leaves alone: the queue, the settings and all other clients.
use cplusplus_projects.Common.{
  ℕ, ◌≡◌, ◌≢◌, refl, ◌∙◌, Bool, true, false, List, [], ◌∷◌, ℤ, if◌then◌else◌, Result, ok, fault,
  Fault, Bool-cases, inl, inr, >>=-eq-ok, ok_inj, ltb_ℤ,
}
use cplusplus_projects.Rms.State.{
  Job, Server, Rms, running, lookup_server, update_server, lookup_client, update_client,
  set_reserved, add_cores_in_use, is_asleep, is_idle, emit, Effect,
}
use cplusplus_projects.Rms.Connect.{
  entries, need_wakeup, settle, set_state, reserve_cores, add_server_jobs, start_on, start_servers,
  send_client_requests, request_unless, set_client_server_number, init_server_connection, job_entry,
}
use cplusplus_projects.Rms.Connect.Clients.{lookup_client-update_ne, addresses, addresses-update}

pub record Frame (a : ℕ) (r q : Rms) : Type 0 where
  pub same_queue : q.job_queue ≡ r.job_queue
  pub same_count : q.num_servers ≡ r.num_servers
  pub same_scheduling : q.scheduling ≡ r.scheduling
  pub same_energy : q.energy_aware ≡ r.energy_aware
  pub same_now : q.now ≡ r.now
  pub same_addresses : addresses q.clients ≡ addresses r.clients
  pub others : (b : ℕ) → a ≢ b → lookup_client q.clients b ≡ lookup_client r.clients b

pub Frame-refl : (a : ℕ) (r : Rms) → Frame a r r
Frame-refl a r = record {
  same_queue = refl;
  same_count = refl;
  same_scheduling = refl;
  same_energy = refl;
  same_now = refl;
  same_addresses = refl;
  others = λ b ne. refl;
}

pub Frame-trans : (a : ℕ) (r q p : Rms) → Frame a r q → Frame a q p → Frame a r p
Frame-trans a r q p f g = record {
  same_queue = g.same_queue ∙ f.same_queue;
  same_count = g.same_count ∙ f.same_count;
  same_scheduling = g.same_scheduling ∙ f.same_scheduling;
  same_energy = g.same_energy ∙ f.same_energy;
  same_now = g.same_now ∙ f.same_now;
  same_addresses = g.same_addresses ∙ f.same_addresses;
  others = λ b ne. g.others b ne ∙ f.others b ne;
}

settle-Frame :
    (j : Job) (n : ℤ) (s : Server) (r : Rms) (w : Bool) (q : Rms × Bool)
    → settle j n s r w ≡ ok q
    → Frame j.client_address r q.0
unfolding settle
settle-Frame j n s r w q e = elim (Bool-cases (is_asleep s.state)) [
  | inl asleep ↦
      let (cs, u, v) =
        >>=-eq-ok (update_client r.clients j.client_address need_wakeup) _ (rw asleep at e) in
      let (xs, u', v') = >>=-eq-ok (update_server r.servers n (set_reserved true)) _ v in
      rw (← ok_inj v') (record {
        same_queue = refl;
        same_count = refl;
        same_scheduling = refl;
        same_energy = refl;
        same_now = refl;
        same_addresses = addresses-update r.clients cs j.client_address need_wakeup (λ d. refl) u;
        others = λ b ne.
            lookup_client-update_ne r.clients cs j.client_address b need_wakeup (λ d. refl) u ne;
      })
  | inr awake ↦ elim (Bool-cases (is_idle s.state)) [
    | inl idles ↦
        let (xs, u', v') =
          >>=-eq-ok (update_server r.servers n (set_state running)) _ (rw (awake, idles) at e) in
        rw (← ok_inj v') (record {
          same_queue = refl;
          same_count = refl;
          same_scheduling = refl;
          same_energy = refl;
          same_now = refl;
          same_addresses = refl;
          others = λ b ne. refl;
        })
    | inr runs ↦ rw (← ok_inj (rw (awake, runs) at e)) (Frame-refl j.client_address r)
  ]
]

guarded {ℓ} :
    {A : Type ℓ} (b : Bool) (x : Fault) (m : Result A) {a : A}
    → (if b then fault x else m) ≡ ok a
    → m ≡ ok a
guarded true x m e = cc
guarded false x m e = e

-- A change of the server list alone.
servers-Frame : (a : ℕ) (r : Rms) (xs : List Server) → Frame a r (record r { servers = xs })
servers-Frame a r xs = record {
  same_queue = refl;
  same_count = refl;
  same_scheduling = refl;
  same_energy = refl;
  same_now = refl;
  same_addresses = refl;
  others = λ b ne. refl;
}

reserve_cores-Frame :
    (j : Job) (ns : List ℤ) (r : Rms) (w : Bool) (q : Rms × Bool)
    → reserve_cores j ns r w ≡ ok q
    → Frame j.client_address r q.0
unfolding reserve_cores
reserve_cores-Frame j [] r w q e = rw (← ok_inj e) (Frame-refl j.client_address r)
reserve_cores-Frame j (n ∷ ns) r w q e =
    let (xs, u, v) = >>=-eq-ok (update_server r.servers n (add_cores_in_use j.cores)) _ e in
    let (s, u', v') = >>=-eq-ok (lookup_server xs n) _ v in
    let (p, u2, v2) =
      >>=-eq-ok
        (if ltb_ℤ s.num_cores s.cores_in_use
          then fault Fault.too_many_cores
          else settle j n s (record r { servers = xs }) w)
        _ v' in
    Frame-trans j.client_address r p.0 q.0
      (Frame-trans j.client_address r (record r { servers = xs }) p.0
        (servers-Frame j.client_address r xs)
        (settle-Frame j n s (record r { servers = xs }) w p (guarded _ _ _ u2)))
      (reserve_cores-Frame j ns p.0 p.1 q v2)

start_servers-Frame :
    (b a : ℕ) (need comp : ℤ) (ns : List ℤ) (r q : Rms)
    → start_servers a need comp ns r ≡ ok q
    → Frame b r q
unfolding start_servers
start_servers-Frame b a need comp [] r q e = rw (← ok_inj e) (Frame-refl b r)
start_servers-Frame b a need comp (n ∷ ns) r q e =
    let (xs, u, v) = >>=-eq-ok (update_server r.servers n (start_on need comp)) _ e in
    Frame-trans b r (emit (Effect.start_job n a) (record r { servers = xs })) q
      (record {
        same_queue = refl;
        same_count = refl;
        same_scheduling = refl;
        same_energy = refl;
        same_now = refl;
        same_addresses = refl;
        others = λ b ne. refl;
      })
      (start_servers-Frame b a need comp ns _ q v)

pub send_client_requests-Frame :
    (b a : ℕ) (r q : Rms) → send_client_requests r a ≡ ok q → Frame b r q
unfolding send_client_requests
send_client_requests-Frame b a r q e =
    let (c, u, v) = >>=-eq-ok (lookup_client r.clients a) _ e in
    let (ns, u', v') = >>=-eq-ok (entries c.nodes c.server_nmb) _ v in
    let f = start_servers-Frame b a c.need_memory _ ns _ q v' in
    record {
      same_queue = f.same_queue;
      same_count = f.same_count;
      same_scheduling = f.same_scheduling;
      same_energy = f.same_energy;
      same_now = f.same_now;
      same_addresses = f.same_addresses;
      others = f.others;
    }

request_unless-Frame :
    (b : ℕ) (w : Bool) (a : ℕ) (r q : Rms) → request_unless w r a ≡ ok q → Frame b r q
unfolding request_unless
request_unless-Frame b true a r q e = rw (← ok_inj e) (Frame-refl b r)
request_unless-Frame b false a r q e = send_client_requests-Frame b a r q e

-- Initiating connections for a job leaves the queue, the settings, the clock and the clients of
-- other addresses as they were.
pub init_server_connection-Frame :
    (r q : Rms) (ns : List ℤ) (j : Job)
    → init_server_connection r ns j ≡ ok q
    → Frame j.client_address r q
unfolding init_server_connection set_client_server_number
init_server_connection-Frame r q ns j e =
    let a = j.client_address in
    let (cs, u, v) = >>=-eq-ok (set_client_server_number ns a r.clients) _ e in
    let (c, u0, v0) = >>=-eq-ok (lookup_client r.clients a) _ u in
    let (added, u1, v1) = >>=-eq-ok (entries c.nodes ns) _ v0 in
    let (p, u2, v2) = >>=-eq-ok (reserve_cores j ns (record r { clients = cs }) false) _ v in
    let (xs, u3, v3) = >>=-eq-ok (add_server_jobs (job_entry j p.1 r.now) ns p.0.servers) _ v2 in
    Frame-trans a r (record r { clients = cs }) q
      (record {
        same_queue = refl;
        same_count = refl;
        same_scheduling = refl;
        same_energy = refl;
        same_now = refl;
        same_addresses = addresses-update r.clients cs a _ (λ d. refl) v1;
        others = λ b ne. lookup_client-update_ne r.clients cs a b _ (λ d. refl) v1 ne;
      })
      (Frame-trans a (record r { clients = cs }) p.0 q
        (reserve_cores-Frame j ns (record r { clients = cs }) false p u2)
        (Frame-trans a p.0 (record p.0 { servers = xs }) q (servers-Frame a p.0 xs)
          (request_unless-Frame a p.1 a (record p.0 { servers = xs }) q v3)))

-- ===== src/Rms/Connect/Total.antt =====
-- initServerConnection raises no error and dereferences no NULL on servers that have room.
use mathlib.Core.Path.{subst}
use cplusplus_projects.Common.{
  ℕ, zero, suc, ◌≡◌, ◌≢◌, refl, sym, ap, ◌∙◌, Bool, true, false, List, [], ◌∷◌, ◌++◌, ℤ, ◌+ℤ◌, ◌≤ℤ◌,
  Result, ok, arith, Bool-cases, inl, inr, All, ltb_ℤ, length, ℤ-discrete,
}
use cplusplus_projects.Rms.State.{
  Job, Server, Client, Rms, running, lookup_server, lookup_client, set_reserved, add_cores_in_use,
  is_asleep, is_idle, emit, Effect,
}
use cplusplus_projects.Rms.Search.Outcome.{Distinct}
use cplusplus_projects.Rms.Connect.{
  entries, need_wakeup, settle, set_state, reserve_cores, add_job, add_server_jobs, start_on,
  start_servers, send_client_requests, job_entry, request_unless, set_client_server_number,
  init_server_connection,
}
use cplusplus_projects.Rms.Connect.Clients.{update_client_lem}
use cplusplus_projects.Rms.Connect.Load.{Known, update_server_total, lookup_server-update_ne}

-- The server of a number, with room for the cores.
abbrev pub HasRoom : ℤ → List Server → ℤ → Type 0
HasRoom cores xs n =
    (s : Server) × (lookup_server xs n ≡ ok s) × (s.cores_in_use +ℤ cores ≤ℤ s.num_cores)

-- A client with the same job and the same servers.
abbrev Serves : Client → ℕ → List Client → Type 0
Serves c a cs =
    (d : Client) × (lookup_client cs a ≡ ok d) × (d.nodes ≡ c.nodes) × (d.server_nmb ≡ c.server_nmb)

HasRoom-Known :
    (cores : ℤ) (xs : List Server) (ns : List ℤ) → All (HasRoom cores xs) ns → All (Known xs) ns
HasRoom-Known cores xs [] h = tt
HasRoom-Known cores xs (n ∷ ns) ((s, e, l), h) = ((s, e), HasRoom-Known cores xs ns h)

-- Servers of other numbers than `n` are as before.
abbrev Others : ℤ → List Server → List Server → Type 0
Others n xs ys = (m : ℤ) → n ≢ m → lookup_server ys m ≡ lookup_server xs m

HasRoom-Others :
    (cores n : ℤ) (xs ys : List Server) (ns : List ℤ)
    → Others n xs ys
    → All (λ m. n ≢ m) ns
    → All (HasRoom cores xs) ns
    → All (HasRoom cores ys) ns
HasRoom-Others cores n xs ys [] o ne h = tt
HasRoom-Others cores n xs ys (m ∷ ns) o (ne, nes) ((s, e, l), h) =
    ((s, o m ne ∙ e, l), HasRoom-Others cores n xs ys ns o nes h)

Known-Others :
    (n : ℤ) (xs ys : List Server) (ns : List ℤ)
    → Others n xs ys
    → All (λ m. n ≢ m) ns
    → All (Known xs) ns
    → All (Known ys) ns
Known-Others n xs ys [] o ne h = tt
Known-Others n xs ys (m ∷ ns) o (ne, nes) ((s, e), h) =
    ((s, o m ne ∙ e), Known-Others n xs ys ns o nes h)

-- The outcome of a step at number `n`: it keeps the other servers and the client.
abbrev Settled : Client → ℕ → ℤ → Rms → Result (Rms × Bool) → Type 0
Settled c a n r m =
    (q : Rms × Bool) × (m ≡ ok q)
    × Known q.0.servers n
    × Others n r.servers q.0.servers
    × Serves c a q.0.clients

settle_total :
    (j : Job) (n : ℤ) (s : Server) (r : Rms) (w : Bool) (c : Client)
    → lookup_server r.servers n ≡ ok s
    → Serves c j.client_address r.clients
    → Settled c j.client_address n r (settle j n s r w)
unfolding settle
settle_total j n s r w c e (d, there, nodes, nmb) = elim (Bool-cases (is_asleep s.state)) [
  | inl asleep ↦
      let (cs, u, v) =
        update_client_lem r.clients j.client_address need_wakeup d (λ x. refl) there in
      let (xs, u', v') = update_server_total (set_reserved true) (λ x. refl) r.servers n s e in
      (
        (emit (Effect.wakeup n j.client_address) (record r { clients = cs; servers = xs }), true),
        rw (asleep, u, u') refl,
        (set_reserved true s, v'),
        λ m ne. lookup_server-update_ne (set_reserved true) (λ x. refl) r.servers xs n m u' ne,
        (need_wakeup d, v, nodes, nmb),
      )
  | inr awake ↦ elim (Bool-cases (is_idle s.state)) [
    | inl idles ↦
        let (xs, u', v') = update_server_total (set_state running) (λ x. refl) r.servers n s e in
        (
          (record r { servers = xs }, w),
          rw (awake, idles, u') refl,
          (set_state running s, v'),
          λ m ne. lookup_server-update_ne (set_state running) (λ x. refl) r.servers xs n m u' ne,
          (d, there, nodes, nmb),
        )
    | inr runs ↦ ((r, w), rw (awake, runs) refl, (s, e), λ m ne. refl, (d, there, nodes, nmb))
  ]
]

-- The outcome of the first loop.
abbrev Reserved : Client → ℕ → Rms → Result (Rms × Bool) → Type 0
Reserved c a r m =
    (q : Rms × Bool) × (m ≡ ok q)
    × ((n : ℤ) → Known r.servers n → Known q.0.servers n)
    × Serves c a q.0.clients

no_overflow :
    (s : Server) (cores : ℤ)
    → s.cores_in_use +ℤ cores ≤ℤ s.num_cores
    → ltb_ℤ s.num_cores (s.cores_in_use +ℤ cores) ≡ false
no_overflow s cores h = ground arith

keep-Known : (n m : ℤ) (xs ys : List Server) → Known ys n → Others n xs ys → Known xs m → Known ys m
keep-Known n m xs ys k o (s, e) = elim (ℤ-discrete n m) [
  | yes same ↦ subst (Known ys) same k
  | no ne ↦ (s, o m ne ∙ e)
]

pub reserve_cores_total :
    (j : Job) (ns : List ℤ) (r : Rms) (w : Bool) (c : Client)
    → All (HasRoom j.cores r.servers) ns
    → Distinct ns
    → Serves c j.client_address r.clients
    → Reserved c j.client_address r (reserve_cores j ns r w)
unfolding reserve_cores
reserve_cores_total j [] r w c h d v = ((r, w), refl, λ n k. k, v)
reserve_cores_total j (n ∷ ns) r w c ((s, e, room), h) (ne, d) v =
    let (xs, u, there) =
      update_server_total (add_cores_in_use j.cores) (λ x. refl) r.servers n s e in
    let others = λ (m : ℤ) (nm : n ≢ m).
      lookup_server-update_ne (add_cores_in_use j.cores) (λ x. refl) r.servers xs n m u nm in
    let (q, u', known, others', v') =
      settle_total j n (add_cores_in_use j.cores s) (record r { servers = xs }) w c there v in
    let both = λ (m : ℤ) (nm : n ≢ m). others' m nm ∙ others m nm in
    let (p, u2, known', v2) =
      reserve_cores_total j ns q.0 q.1 c
        (HasRoom-Others j.cores n r.servers q.0.servers ns both ne h) d v' in
    (
      p,
      rw (u, there, no_overflow s j.cores room, u') u2,
      λ m k. known' m (keep-Known n m r.servers q.0.servers known both k),
      v2,
    )

pub add_server_jobs_total :
    (j : Job) (ns : List ℤ) (xs : List Server)
    → All (Known xs) ns
    → Distinct ns
    → (ys : List Server) × (add_server_jobs j ns xs ≡ ok ys) × ((n : ℤ) → Known xs n → Known ys n)
unfolding add_server_jobs
add_server_jobs_total j [] xs h d = (xs, refl, λ n k. k)
add_server_jobs_total j (n ∷ ns) xs ((s, e), h) (ne, d) =
    let f = add_job (record j { server_index = n }) in
    let (ys, u, there) = update_server_total f (λ x. refl) xs n s e in
    let others = λ (m : ℤ) (nm : n ≢ m). lookup_server-update_ne f (λ x. refl) xs ys n m u nm in
    let (zs, u', known) = add_server_jobs_total j ns ys (Known-Others n xs ys ns others ne h) d in
    (zs, rw u u', λ m k. known m (keep-Known n m xs ys (f s, there) others k))

start_servers_total :
    (a : ℕ) (need comp : ℤ) (ns : List ℤ) (r : Rms)
    → All (Known r.servers) ns
    → Distinct ns
    → (q : Rms) × (start_servers a need comp ns r ≡ ok q)
unfolding start_servers
start_servers_total a need comp [] r h d = (r, refl)
start_servers_total a need comp (n ∷ ns) r ((s, e), h) (ne, d) =
    let (ys, u, there) = update_server_total (start_on need comp) (λ x. refl) r.servers n s e in
    let others = λ (m : ℤ) (nm : n ≢ m).
      lookup_server-update_ne (start_on need comp) (λ x. refl) r.servers ys n m u nm in
    let (q, u') =
      start_servers_total a need comp ns (emit (Effect.start_job n a) (record r { servers = ys }))
        (Known-Others n r.servers ys ns others ne h) d in
    (q, rw u u')

entries_total : (k : ℕ) (ns : List ℤ) → length ns ≡ k → entries k ns ≡ ok ns
unfolding entries
entries_total zero [] e = refl
entries_total zero (n ∷ ns) e = absurd (omega arith)
entries_total (suc k) [] e = absurd (omega arith)
entries_total (suc k) (n ∷ ns) e = rw (entries_total k ns (omega arith)) refl

pub send_client_requests_total :
    (r : Rms) (a : ℕ) (ns : List ℤ) (c : Client)
    → lookup_client r.clients a ≡ ok c
    → c.server_nmb ≡ ns
    → length ns ≡ c.nodes
    → All (Known r.servers) ns
    → Distinct ns
    → (q : Rms) × (send_client_requests r a ≡ ok q)
unfolding send_client_requests
send_client_requests_total r a ns c e nmb l h d =
    rw (e, nmb, entries_total c.nodes ns l) (start_servers_total a _ _ ns _ h d)

request_unless_total :
    (w : Bool) (r : Rms) (a : ℕ) (ns : List ℤ) (c : Client)
    → lookup_client r.clients a ≡ ok c
    → c.server_nmb ≡ ns
    → length ns ≡ c.nodes
    → All (Known r.servers) ns
    → Distinct ns
    → (q : Rms) × (request_unless w r a ≡ ok q)
unfolding request_unless
request_unless_total true r a ns c e nmb l h d = (r, refl)
request_unless_total false r a ns c e nmb l h d = send_client_requests_total r a ns c e nmb l h d

All-Known-map :
    (xs ys : List Server) (ns : List ℤ)
    → ((n : ℤ) → Known xs n → Known ys n)
    → All (Known xs) ns
    → All (Known ys) ns
All-Known-map xs ys [] f h = tt
All-Known-map xs ys (n ∷ ns) f h = (f n h.0, All-Known-map xs ys ns f h.1)

abbrev assign : List ℤ → Client → Client
assign ns c = record c { server_nmb = c.server_nmb ++ ns }

-- On distinct servers that all have room, for a client whose record holds the job and no server
-- yet, the connections are initiated without a fault.
pub init_server_connection_total :
    (r : Rms) (ns : List ℤ) (j : Job) (c : Client)
    → All (HasRoom j.cores r.servers) ns
    → Distinct ns
    → lookup_client r.clients j.client_address ≡ ok c
    → c.server_nmb ≡ []
    → length ns ≡ c.nodes
    → (q : Rms) × (init_server_connection r ns j ≡ ok q)
unfolding init_server_connection set_client_server_number
init_server_connection_total r ns j c h d e fresh l =
    let a = j.client_address in
    let (cs, u, there) = update_client_lem r.clients a (assign ns) c (λ x. refl) e in
    let (q, u1, known, (c', e', nodes, nmb)) =
      reserve_cores_total j ns (record r { clients = cs }) false (assign ns c) h d
        (assign ns c, there, refl, refl) in
    let job = job_entry j q.1 r.now in
    let known1 =
      All-Known-map r.servers q.0.servers ns known (HasRoom-Known j.cores r.servers ns h) in
    let (xs, u2, known2) = add_server_jobs_total job ns q.0.servers known1 d in
    let (z, u3) =
      request_unless_total q.1 (record q.0 { servers = xs }) a ns c' e'
        (nmb ∙ ap (λ ms. ms ++ ns) fresh) (l ∙ sym nodes)
        (All-Known-map q.0.servers xs ns known2 known1) d in
    (z, rw (e, entries_total c.nodes ns l, u, u1, u2) u3)

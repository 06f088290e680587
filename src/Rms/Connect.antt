-- ===== src/Rms/Connect.antt =====
-- setClientServerNumber, initServerConnection and sendClientRequests of SuperComRmsApp.cc. The
-- array serverNumber[nodes] is the list of its entries. Of the self-messages that are scheduled
-- for the current time, an effect keeps what their handler reads: the server and the client.
pub mod Clients
pub mod Frame
pub mod Load
pub mod Charge
pub mod Total
pub mod Capacity
pub mod Place
use cplusplus_projects.Common.{
  ℕ, zero, suc, Bool, true, false, List, [], ◌∷◌, ◌++◌, ℤ, pos, ◌+ℤ◌, ◌-ℤ◌, ltb_ℤ, if◌then◌else◌,
  Result, ok, fault, Fault, ◌>>=◌,
}
use cplusplus_projects.Rms.State.{
  ServerState, running, Job, Server, Client, RunJob, Effect, Rms, seconds, unset_time,
  lookup_server, update_server, lookup_client, update_client, set_reserved, add_cores_in_use,
  is_asleep, is_idle, emit,
}

-- The first `n` entries of an array; an access past its end is a fault.
unfoldable pub entries : ℕ → List ℤ → Result (List ℤ)
entries zero ns = ok []
entries (suc k) [] = fault Fault.bad_index
entries (suc k) (n ∷ ns) = entries k ns >>= λ rest. ok (n ∷ rest)

unfoldable pub set_client_server_number : List ℤ → ℕ → List Client → Result (List Client)
set_client_server_number ns a cs = do
  c ← lookup_client cs a
  added ← entries c.nodes ns
  update_client cs a (λ d. record d { server_nmb = d.server_nmb ++ added })

abbrev pub need_wakeup : Client → Client
need_wakeup c = record c { needwakeup_nodes = suc c.needwakeup_nodes }

abbrev pub set_state : ServerState → Server → Server
set_state st s = record s { state = st }

-- The rest of the first loop's body: `s` is the server, its cores already counted.
unfoldable pub settle : Job → ℤ → Server → Rms → Bool → Result (Rms × Bool)
settle j n s r wake_up =
    if is_asleep s.state
    then (do
      cs ← update_client r.clients j.client_address need_wakeup
      xs ← update_server r.servers n (set_reserved true)
      ok (emit (Effect.wakeup n j.client_address) (record r { clients = cs; servers = xs }), true))
    else (if is_idle s.state
        then (do
          xs ← update_server r.servers n (set_state running)
          ok (record r { servers = xs }, wake_up))
        else ok (r, wake_up))

-- The first loop: the cores of each selected server are taken, and sleeping ones are woken.
unfoldable pub reserve_cores : Job → List ℤ → Rms → Bool → Result (Rms × Bool)
reserve_cores j [] r wake_up = ok (r, wake_up)
reserve_cores j (n ∷ ns) r wake_up = do
  xs ← update_server r.servers n (add_cores_in_use j.cores)
  s ← lookup_server xs n
  settled ←
      (if ltb_ℤ s.num_cores s.cores_in_use
        then fault Fault.too_many_cores
        else settle j n s (record r { servers = xs }) wake_up)
  reserve_cores j ns settled.0 settled.1

abbrev pub add_job : Job → Server → Server
add_job j s = record s { jobs = s.jobs ++ j ∷ [] }

-- The second loop: addServerJobs on each selected server.
unfoldable pub add_server_jobs : Job → List ℤ → List Server → Result (List Server)
add_server_jobs j [] xs = ok xs
add_server_jobs j (n ∷ ns) xs = do
  ys ← update_server xs n (add_job (record j { server_index = n }))
  add_server_jobs j ns ys

abbrev pub start_on : ℤ → ℤ → Server → Server
start_on need comp s = record s {
  memory = s.memory -ℤ need;
  state = running;
  comp_time = comp;
  reserved = false;
}

-- The loop of sendClientRequests over the client's servers.
unfoldable pub start_servers : ℕ → ℤ → ℤ → List ℤ → Rms → Result Rms
start_servers a need comp [] r = ok r
start_servers a need comp (n ∷ ns) r = do
  xs ← update_server r.servers n (start_on need comp)
  start_servers a need comp ns (emit (Effect.start_job n a) (record r { servers = xs }))

abbrev pub run_job : Client → ℕ → ℤ → RunJob
run_job c a now = record {
  nodes = c.nodes;
  need_memory = c.need_memory;
  run_time = c.run_time;
  sub_time = c.sub_time;
  comp_time = c.run_time +ℤ now;
  start_time = now;
  client_address = a;
  cores = c.cores;
}

unfoldable pub send_client_requests : Rms → ℕ → Result Rms
send_client_requests r a = do
  c ← lookup_client r.clients a
  ns ← entries c.nodes c.server_nmb
  start_servers a c.need_memory (c.run_time +ℤ r.now) ns (
      emit (Effect.network_energy r.now) (
        emit (Effect.wait_time (r.now -ℤ c.sub_time)) (record r {
          queue_time = r.queue_time ++ (r.now -ℤ c.sub_time) ∷ [];
          running_jobs = r.running_jobs ++ run_job c a r.now ∷ [];
        })))

abbrev pub start_time : Bool → ℤ → ℤ
start_time wake_up now = if wake_up then now +ℤ seconds 90 else now

-- The message that enters the job lists of the servers: without a submission time and a priority,
-- which keep the message class's defaults.
abbrev pub job_entry : Job → Bool → ℤ → Job
job_entry j wake_up now = record j {
  time_of_start = start_time wake_up now;
  sub_time = unset_time;
  priority = pos 1;
}

-- The requests are sent at once unless a server has to wake up first.
unfoldable pub request_unless : Bool → Rms → ℕ → Result Rms
request_unless true r a = ok r
request_unless false r a = send_client_requests r a

unfoldable pub init_server_connection : Rms → List ℤ → Job → Result Rms
init_server_connection r ns j = do
  cs ← set_client_server_number ns j.client_address r.clients
  reserved ← reserve_cores j ns (record r { clients = cs }) false
  xs ← add_server_jobs (job_entry j reserved.1 r.now) ns reserved.0.servers
  request_unless reserved.1 (record reserved.0 { servers = xs }) j.client_address

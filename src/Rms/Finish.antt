-- ===== src/Rms/Finish.antt =====
-- The server handler of SuperComRmsApp.cc, SuperComRmsAppServerHandler::dataArrived: the end of a
-- job on a server, and the responses to a sleep and to a wake-up message.
pub mod Jobs
pub mod Freed
pub mod Handled
pub mod Woken
use cplusplus_projects.Common.{
  ℕ, zero, suc, Bool, true, false, List, [], ◌∷◌, ℤ, pos, ◌+ℤ◌, ◌-ℤ◌, ◌==ℤ◌, leb_ℤ, ◌==◌,
  if◌then◌else◌, Result, ok, fault, Fault, ◌>>=◌,
}
use cplusplus_projects.Rms.State.{
  idle, Job, Server, Client, Effect, Rms, lookup_server, update_server, lookup_client,
  update_client, set_reserved, emit, delete_client, delete_runjob,
}
use cplusplus_projects.Rms.Connect.{send_client_requests}
use cplusplus_projects.Rms.Dequeue.{dequeue}

-- removeServerJobs. The index moves on after a removal too, so the job behind a removed one is
-- passed over, which the flag says.
unfoldable pub remove_jobs : ℕ → Bool → List Job → List Job
remove_jobs a over [] = []
remove_jobs a true (j ∷ js) = j ∷ remove_jobs a false js
remove_jobs a false (j ∷ js) = elim (j.client_address == a) [
  | true ↦ remove_jobs a true js
  | false ↦ j ∷ remove_jobs a false js
]

unfoldable pub remove_server_jobs : Rms → ℤ → ℕ → Result Rms
remove_server_jobs r n a =
    update_server r.servers n (λ s. record s { jobs = remove_jobs a false s.jobs }) >>= λ xs.
    ok (record r { servers = xs })

-- incrementClientOutputData: the data and the sum have to be positive.
unfoldable pub increment_client_output_data : Rms → ℕ → ℤ → Result Rms
increment_client_output_data r a bytes = do
  c ← (if leb_ℤ bytes (pos 0) then fault Fault.bad_output else lookup_client r.clients a)
  cs ← update_client r.clients a (λ d. record d { output_data = d.output_data +ℤ bytes })
  if leb_ℤ (c.output_data +ℤ bytes) (pos 0)
      then fault Fault.bad_output
      else ok (record r { clients = cs })

-- getClientOutputData: only a positive amount is returned.
unfoldable pub get_client_output_data : Rms → ℕ → Result ℤ
get_client_output_data r a = do
  c ← lookup_client r.clients a
  if leb_ℤ c.output_data (pos 0) then fault Fault.bad_output else ok c.output_data

-- The server gets the job's memory and cores back, and is idle if none is in use.
abbrev pub release : Client → Server → Server
release c s = record s {
  memory = s.memory +ℤ c.need_memory;
  cores_in_use = s.cores_in_use -ℤ c.cores;
}

abbrev pub rest_if_free : Server → Server
rest_if_free s =
    if s.cores_in_use ==ℤ pos 0 then record s { state = idle; comp_time = pos 0 } else s

unfoldable pub free_server : Rms → ℤ → ℕ → Result Rms
free_server r n a = do
  c ← lookup_client r.clients a
  xs ← update_server r.servers n (release c)
  ys ← update_server xs n rest_if_free
  ok (record r { servers = ys })

abbrev pub finish_one : Client → Client
finish_one c = record c { finished_servers = suc c.finished_servers }

abbrev pub clear_output : Client → Client
clear_output c = record c { output_data = pos 0 }

abbrev pub complete : ℕ → Rms → Rms
complete a r =
    emit (Effect.network_energy r.now) (record r { running_jobs = delete_runjob r.running_jobs a })

-- In federated mode the client is deleted.
abbrev pub forget_if_federated : ℕ → Rms → Rms
forget_if_federated a r =
    if r.federated then record r { clients = delete_client r.clients a } else r

-- All servers of the client have finished.
unfoldable pub finish_client : Rms → ℕ → Result Rms
finish_client r a = do
  output ← get_client_output_data (complete a r) a
  p ← dequeue (record (complete a r) { jobs_completed = suc r.jobs_completed })
  c ← lookup_client p.clients a
  cs ← update_client p.clients a clear_output
  ok (
      forget_if_federated a
        (record (emit (Effect.finish_job a c.uso_address output) p) { clients = cs }))

-- Whether these were the last servers, and what then follows.
unfoldable pub finish_if_last : Rms → ℕ → Result Rms
finish_if_last r a = do
  c ← lookup_client r.clients a
  elim (c.finished_servers == c.nodes) [ true ↦ finish_client r a | false ↦ ok r ]

-- MSGKIND_FINISH from server `n`, with the output data of client `a`.
unfoldable pub receive_finish : Rms → ℤ → ℕ → ℤ → Result Rms
receive_finish r n a bytes = do
  p ← increment_client_output_data r a bytes
  q ← free_server p n a
  s ← remove_server_jobs q n a
  cs ← update_client s.clients a finish_one
  finish_if_last (record s { clients = cs }) a

-- SuperComRmsAppClientHandler::established with a finish message to send: in the single-site case
-- the client is deleted.
unfoldable pub finish_established : Rms → ℕ → Rms
finish_established r a = if r.federated then r else record r { clients = delete_client r.clients a }

-- MSGKIND_SLEEP_RESPONSE.
unfoldable pub receive_sleep_response : Rms → ℤ → Result Rms
receive_sleep_response r n =
    update_server r.servers n (set_reserved false) >>= λ xs. ok (record r { servers = xs })

abbrev pub wake_one : Client → Client
wake_one c = record c { wakeup_nodes = suc c.wakeup_nodes }

-- MSGKIND_WAKEUP_RESPONSE: with the last one the requests are sent and the queue is looked at.
unfoldable pub receive_wakeup_response : Rms → ℕ → Result Rms
receive_wakeup_response r a = do
  cs ← update_client r.clients a wake_one
  c ← lookup_client cs a
  elim (c.wakeup_nodes == c.needwakeup_nodes) [
    | true ↦ send_client_requests (record r { clients = cs }) a >>= dequeue
    | false ↦ ok (record r { clients = cs })
  ]

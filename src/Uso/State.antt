-- ===== src/Uso/State.antt =====
-- The structures of SuperComUSO.h and the accessors of SuperComUSO.cc. The sites are the states of
-- their resource management systems, which the scheduler calls directly.
use cplusplus_projects.Common.{
  ℕ, ◌==◌, Bool, true, List, [], ◌∷◌, ℤ, pos, ◌+ℤ◌, ◌*ℤ◌, ◌==ℤ◌, if◌then◌else◌, length, Result, ok,
  fault, Fault, ◌>>=◌,
}
use cplusplus_projects.Rms.State.{Job, Server, Rms, lookup_server}
use cplusplus_projects.Rms.Search.{search_servers}
use cplusplus_projects.Uso.Ratio.{Ratio}

-- RMSInfo.
pub record RmsInfo : Type 0 where
  pub id : ℕ
  pub rms : Rms

-- clientInfo.
pub record Client : Type 0 where
  pub client_address : ℕ
  pub nodes : ℕ
  pub cores : ℤ
  pub need_memory : ℤ
  pub run_time : ℤ
  pub load : ℤ
  pub loaded_time : ℤ
  pub input_data : ℤ
  pub output_data : ℤ
  pub rms_nmb : ℤ
  pub job_priority : ℤ
  pub sub_time : ℤ

-- The module; `scheduled` are its self-messages that open a connection with a site for a job.
pub record Uso : Type 0 where
  pub rms_list : List RmsInfo
  pub num_rms : ℕ
  pub previous_rms : ℤ
  pub fit4green : Bool
  pub clients : List Client
  pub now : ℤ
  pub scheduled : List Job

unfoldable pub lookup_rms : List RmsInfo → ℕ → Result RmsInfo
lookup_rms [] i = fault Fault.null_rms
lookup_rms (s ∷ xs) i = if s.id == i then ok s else lookup_rms xs i

-- A write through the pointer that lookupRMS returns.
unfoldable pub update_rms : List RmsInfo → ℕ → (RmsInfo → RmsInfo) → Result (List RmsInfo)
update_rms [] i f = fault Fault.null_rms
update_rms (s ∷ xs) i f =
    let rest = update_rms xs i f in
    if s.id == i then ok (f s ∷ xs) else (rest >>= λ ys. ok (s ∷ ys))

unfoldable pub lookup_client : List Client → ℕ → Result Client
lookup_client [] a = fault Fault.null_client
lookup_client (c ∷ cs) a = if c.client_address == a then ok c else lookup_client cs a

unfoldable pub update_client : List Client → ℕ → (Client → Client) → Result (List Client)
update_client [] a f = fault Fault.null_client
update_client (c ∷ cs) a f =
    let rest = update_client cs a f in
    if c.client_address == a then ok (f c ∷ cs) else (rest >>= λ ds. ok (c ∷ ds))

-- deleteClient.
unfoldable pub delete_client : List Client → ℕ → List Client
delete_client [] a = []
delete_client (c ∷ cs) a = if c.client_address == a then cs else c ∷ delete_client cs a

abbrev pub sum_times : List ℤ → ℤ
sum_times [] = pos 0
sum_times (t ∷ ts) = t +ℤ sum_times ts

-- getAverageQueueTime of the RMS.
abbrev pub average_of : List ℤ → Ratio
average_of ts =
    let sum = sum_times ts in
    if sum ==ℤ pos 0
    then record { over = pos 0; under = 1 }
    else record { over = sum; under = length ts }

abbrev pub average_queue_time : Rms → Ratio
average_queue_time r = average_of r.queue_time

abbrev pub set_servers : List Server → RmsInfo → RmsInfo
set_servers xs s = record s { rms = record s.rms { servers = xs } }

-- The number of cores that getEstimatedWaitTime of the RMS divides by, which reads the first server.
-- The quotient is only logged.
abbrev pub total_cores : Rms → Result ℤ
total_cores r = lookup_server r.servers (pos 0) >>= λ s. ok (s.num_cores *ℤ pos r.num_servers)

-- searchRMSServers: whether the client's job finds its servers at site `i`.
unfoldable pub search_rms_servers : ℕ → ℕ → Uso → Result (Bool × Uso)
search_rms_servers i a u = do
  c ← lookup_client u.clients a
  s ← lookup_rms u.rms_list i
  f ← search_servers s.rms c.nodes c.need_memory c.cores true
  xs ← update_rms u.rms_list i (set_servers f.servers)
  ok (f.found, record u { rms_list = xs })

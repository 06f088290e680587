-- ===== src/Uso/Request.antt =====
-- The client handler of SuperComUSO.cc: a request gets a site, a message to open the connection with
-- it, and is sent on to that site; and the end of a job.
pub mod Placed
use cplusplus_projects.Common.{
  ℕ, ◌≡◌, Bool, true, false, List, [], ◌∷◌, ◌++◌, ℤ, pos, negsuc, ◌==ℤ◌, ◌==◌, if◌then◌else◌,
  Result, ok, fault, ◌>>=◌,
}
use cplusplus_projects.Rms.State.{Job, Rms, unset_time}
use cplusplus_projects.Uso.State.{
  RmsInfo, Client, Uso, lookup_rms, lookup_client, update_client, delete_client,
}
use cplusplus_projects.Uso.Select.{select_rms}

-- The fields of a client's SuperComMsg that the scheduler reads.
pub record Request : Type 0 where
  pub expected_reply_length : ℕ
  pub run_time : ℤ
  pub memory : ℤ
  pub nodes : ℕ
  pub cores : ℤ
  pub load : ℤ
  pub input_data : ℤ
  pub loaded_time : ℤ
  pub energy_aware : Bool

-- addClientInfo. The number of the site is not initialised: `junk`.
abbrev pub new_client : ℤ → ℕ → Request → ℤ → Client
new_client junk a m now = record {
  client_address = a;
  nodes = m.nodes;
  cores = m.cores;
  need_memory = m.memory;
  run_time = m.run_time;
  load = m.load;
  loaded_time = m.loaded_time;
  input_data = m.input_data;
  output_data = pos 0;
  rms_nmb = junk;
  job_priority = pos 1;
  sub_time = now;
}

abbrev pub add_client_info : ℤ → ℕ → Request → Uso → Uso
add_client_info junk a m u = record u { clients = u.clients ++ new_client junk a m u.now ∷ [] }

abbrev pub set_rms_nmb : ℤ → Client → Client
set_rms_nmb n c = record c { rms_nmb = n }

unfoldable pub set_client_rms_number : ℤ → ℕ → Uso → Result Uso
set_client_rms_number n a u =
    update_client u.clients a (set_rms_nmb n) >>= λ cs. ok (record u { clients = cs })

-- INTERNAL_JOB_MSG, with the defaults of the fields that are not set.
abbrev pub job_message : ℤ → Client → Job
job_message now c = record {
  server_index = c.rms_nmb;
  run_time = c.run_time;
  client_address = c.client_address;
  need_memory = c.need_memory;
  nodes = c.nodes;
  cores = c.cores;
  sub_time = unset_time;
  load = c.load;
  input_data = c.input_data;
  loaded_time = c.loaded_time;
  priority = pos 1;
  time_of_start = now;
}

unfoldable pub send_client_requests : ℕ → Uso → Result Uso
send_client_requests a u = do
  c ← lookup_client u.clients a
  ok (record u { scheduled = u.scheduled ++ job_message u.now c ∷ [] })

-- MSGKIND_REQUEST of SuperComUSOClientHandler::dataArrived. A client that expects no reply is ignored.
unfoldable pub receive_request : (Rms → Client → ℤ) → ℤ → ℕ → Request → Uso → Result Uso
receive_request energy_estimate junk a m u = if m.expected_reply_length == 0 then ok u else (do
  chosen ← select_rms energy_estimate m.energy_aware a (add_client_info junk a m u)
  told ← set_client_rms_number chosen.0 a chosen.1
  send_client_requests a told)

-- ===== src/Rms/Run.antt =====
-- Runs of the resource management system of SuperComRmsApp.cc: the messages it handles, in any
-- order, and the passing of time. What a step assumes of a message is what the clients and the
-- servers do: a client has one request at a time, and a server reports a job that it holds.
pub mod Safe
use cplusplus_projects.Common.{
  ℕ, ◌≡◌, ◌≢◌, List, [], ℤ, pos, ◌≤ℤ◌, ◌<ℤ◌, Result, ok, fault, Fault, All, length,
}
use cplusplus_projects.Rms.State.{Job, Server, Client, Rms, lookup_server, lookup_client}
use cplusplus_projects.Rms.Search.Outcome.{Distinct}
use cplusplus_projects.Rms.Connect.Load.{Known, loads}
use cplusplus_projects.Rms.Estimate.Sure.{IsWide}
use cplusplus_projects.Rms.Request.{Request, receive_request}
use cplusplus_projects.Rms.Finish.{
  finish_established, receive_finish, receive_sleep_response, receive_wakeup_response,
}
use cplusplus_projects.Rms.Finish.Jobs.{HoldsOne}
use cplusplus_projects.Rms.Initialize.{Parameters, initialize}

-- A message arrives, and what its handler computes in that state.
pub data Event (r : Rms) : Result Rms → Type 0 where
  request :
      (m : Request)
      → pos 0 ≤ℤ m.cores
      → All (IsWide m.cores) (loads r.servers)
      → lookup_client r.clients m.client_address ≡ fault Fault.null_client
      → Event r (receive_request r m)
  finish :
      (n : ℤ) (a : ℕ) (bytes : ℤ) (c : Client) (s : Server)
      → lookup_client r.clients a ≡ ok c
      → lookup_server r.servers n ≡ ok s
      → pos 0 <ℤ bytes
      → pos 0 ≤ℤ c.output_data
      → HoldsOne a c.cores s.jobs
      → All (λ j. pos 0 ≤ℤ j.cores) s.jobs
      → c.server_nmb ≢ []
      → Event r (receive_finish r n a bytes)
  woken :
      (a : ℕ) (c : Client)
      → lookup_client r.clients a ≡ ok c
      → length c.server_nmb ≡ c.nodes
      → All (Known r.servers) c.server_nmb
      → Distinct c.server_nmb
      → c.server_nmb ≢ []
      → Event r (receive_wakeup_response r a)
  told :
      (a : ℕ) (c : Client)
      → lookup_client r.clients a ≡ ok c
      → c.server_nmb ≢ []
      → Event r (ok (finish_established r a))
  slept : (n : ℤ) → Known r.servers n → Event r (receive_sleep_response r n)
  tick : (t : ℤ) → r.now ≤ℤ t → Event r (ok (record r { now = t }))

-- The states of a run from `initialize` on.
pub data Reachable (c : Parameters) : Rms → Type 0 where
  start : Reachable c (initialize c)
  step : {r q : Rms} → Reachable c r → Event r (ok q) → Reachable c q

-- ===== src/Rms/Sleep.antt =====
-- checkServers and scheduleSleep of SuperComRmsApp.cc: idle servers are suspended.
pub mod Suspended
pub mod Rested
use cplusplus_projects.Common.{
  ℕ, zero, suc, Bool, true, false, ◌&&◌, not, List, [], ◌∷◌, ℤ, pos, ◌-ℤ◌, ltb_ℤ, if◌then◌else◌,
  Result, ok, ◌>>=◌,
}
use cplusplus_projects.Rms.State.{
  hybernated, Job, Server, Effect, Rms, seconds, lookup_server, update_server, is_idle, emit,
}
use cplusplus_projects.Rms.Estimate.{get_estimated_start_time}

abbrev pub suspended : Server → Server
suspended s = record s { state = hybernated; reserved = true; comp_time = seconds 90 }

-- A suspend action of server `i`, with sleep mode 2.
unfoldable pub suspend : Rms → ℕ → Result Rms
suspend r i = update_server r.servers (pos i) suspended >>= λ xs.
    ok (emit (Effect.sleep (pos i) 2) (record r { servers = xs }))

-- With a job in the queue the server is suspended only if the job's start is more than 50 seconds
-- away.
unfoldable pub suspend_unless_due : List Job → Rms → ℕ → Result Rms
suspend_unless_due [] r i = suspend r i
suspend_unless_due (j ∷ js) r i = get_estimated_start_time r >>= λ t.
    if ltb_ℤ (seconds 50) (t -ℤ r.now) then suspend r i else ok r

abbrev pub may_suspend : Rms → Server → Bool
may_suspend r s = is_idle s.state && (not s.reserved && ltb_ℤ (seconds 20) r.now)

-- for (i = 0; i < numServers; i++), with the rounds left first.
unfoldable pub check_from : ℕ → ℕ → Rms → Result Rms
check_from zero i r = ok r
check_from (suc n) i r = do
  s ← lookup_server r.servers (pos i)
  q ← (if may_suspend r s then suspend_unless_due r.job_queue r i else ok r)
  check_from n (suc i) q

unfoldable pub check_servers : Rms → Result Rms
check_servers r = check_from r.num_servers 0 r

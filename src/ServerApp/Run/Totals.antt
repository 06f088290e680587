-- ===== src/ServerApp/Run/Totals.antt =====
-- Sums over the self-messages that are scheduled.
use cplusplus_projects.Common.{ℕ, ◌+◌, ◌≡◌, List, [], ◌∷◌, ◌++◌, ℤ, pos_part, arith}
use cplusplus_projects.ServerApp.State.{Internal, complete, wakeup_response, Scheduled}
use cplusplus_projects.ServerApp.Cores.Marked.{at_load}

abbrev pub total : (Internal → ℕ) → List Scheduled → ℕ
total f [] = 0
total f (m ∷ ms) = f m.message + total f ms

pub total-append :
    (f : Internal → ℕ) (ms ns : List Scheduled) → total f (ms ++ ns) ≡ total f ms + total f ns
total-append f [] ns = omega arith
total-append f (m ∷ ms) ns = omega (arith, total-append f ms ns)

-- With one message among the others.
pub total-split :
    (f : Internal → ℕ) (before : List Scheduled) (m : Scheduled) (behind : List Scheduled)
    → total f (before ++ m ∷ behind) ≡ total f (before ++ behind) + f m.message
total-split f before m behind =
    omega (arith, total-append f before (m ∷ behind), total-append f before behind)

-- The jobs that run, their memory, and their cores of load `l`.
abbrev pub job_count : Internal → ℕ
job_count (complete c) = 1
job_count _ = 0

abbrev pub job_memory : Internal → ℕ
job_memory (complete c) = pos_part c.need_memory
job_memory _ = 0

abbrev pub job_cores : ℤ → Internal → ℕ
job_cores l (complete c) = at_load c.load (pos_part c.cores) l
job_cores l _ = 0

-- The answers to a wake-up message that are due.
abbrev pub wakeup_count : Internal → ℕ
wakeup_count (wakeup_response conn client) = 1
wakeup_count _ = 0

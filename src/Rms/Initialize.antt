-- ===== src/Rms/Initialize.antt =====
-- The servers that `initialize` of SuperComRmsApp.cc creates, and the system before any message.
use cplusplus_projects.Common.{
  ℕ, zero, suc, ◌≡◌, refl, sym, ap, Bool, false, List, [], ◌∷◌, ℤ, pos, arith, All, length,
}
use cplusplus_projects.Rms.State.{idle, Server, Rms}
use cplusplus_projects.Rms.Numbered.{Numbered}
use cplusplus_projects.Rms.Connect.Load.{loads}
use cplusplus_projects.Rms.Connect.Capacity.{IsSound}
use cplusplus_projects.Rms.Dequeue.Ready.{Ready}

-- The module's parameters.
pub record Parameters : Type 0 where
  pub num_servers : ℕ
  pub memory : ℤ
  pub num_cores : ℕ
  pub energy_aware : Bool
  pub federated : Bool
  pub scheduling : ℕ

abbrev pub new_server : Parameters → ℕ → Server
new_server c i = record {
  state = idle;
  id = i;
  memory = c.memory;
  num_cores = pos c.num_cores;
  cores_in_use = pos 0;
  jobs = [];
  reserved = false;
  connected = false;
  comp_time = pos 0;
}

-- for (i = 0; i < numServers; i++), with the rounds left first.
unfoldable pub create_servers : Parameters → ℕ → ℕ → List Server
create_servers c zero i = []
create_servers c (suc n) i = new_server c i ∷ create_servers c n (suc i)

unfoldable pub initialize : Parameters → Rms
initialize c = record {
  servers = create_servers c c.num_servers 0;
  num_servers = c.num_servers;
  clients = [];
  running_jobs = [];
  job_queue = [];
  queue_time = [];
  energy_aware = c.energy_aware;
  federated = c.federated;
  scheduling = c.scheduling;
  jobs_completed = 0;
  now = pos 0;
  effects = [];
}

create_servers-Numbered : (c : Parameters) (n i : ℕ) → Numbered i (create_servers c n i)
unfolding create_servers
create_servers-Numbered c zero i = tt
create_servers-Numbered c (suc n) i = (refl, create_servers-Numbered c n (suc i))

length-create_servers : (c : Parameters) (n i : ℕ) → length (create_servers c n i) ≡ n
unfolding create_servers
length-create_servers c zero i = refl
length-create_servers c (suc n) i = ap suc (length-create_servers c n (suc i))

create_servers-IsSound : (c : Parameters) (n i : ℕ) → All IsSound (loads (create_servers c n i))
unfolding create_servers
create_servers-IsSound c zero i = tt
create_servers-IsSound c (suc n) i = (
  record { accounted = refl; nonneg = omega arith; capacity = omega arith },
  create_servers-IsSound c n (suc i),
)

-- The system starts ready for its queue, which is empty.
pub initialize-Ready : (c : Parameters) → Ready (initialize c) (initialize c).job_queue
unfolding initialize
initialize-Ready c = record {
  has_servers = record {
    numbered = create_servers-Numbered c c.num_servers 0;
    counted = sym (length-create_servers c c.num_servers 0);
  };
  sound = create_servers-IsSound c c.num_servers 0;
  waiting = tt;
  owners = tt;
  wide = tt;
}

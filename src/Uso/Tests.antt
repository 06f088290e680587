-- ===== src/Uso/Tests.antt =====
-- A federation of two data centres with one server each.
use cplusplus_projects.Common.{
  ℕ, ltb, if◌then◌else◌, ◌%◌, ◌<◌, ◌≡◌, ◌⊎◌, refl, Bool, true, false, [], ◌∷◌, ℤ, pos, negsuc,
  arith, All, ok,
}
use cplusplus_projects.Rms.State.{Rms}
use cplusplus_projects.Rms.Initialize.{Parameters, initialize, initialize-Ready}
use cplusplus_projects.Uso.State.{RmsInfo, Client, Uso, lookup_client}
use cplusplus_projects.Uso.Select.{no_site, find_soonest, select_energy_aware}
use cplusplus_projects.Uso.Select.RoundRobin.{select_repeatedly, select_repeatedly_lem}
use cplusplus_projects.Uso.Select.Delay.{Shortest, find_soonest-Shortest}
use cplusplus_projects.Uso.Select.Energy.{has_short_queue, Greenly}
use cplusplus_projects.Uso.Select.Load.{LeastLoaded, select_energy_aware_lem}
use cplusplus_projects.Uso.Sites.{HasSites}
use cplusplus_projects.Uso.Request.{Request}
use cplusplus_projects.Uso.Request.Placed.{Placed}

abbrev center : Parameters
center = record {
  num_servers = 1;
  memory = pos 100;
  num_cores = 4;
  energy_aware = false;
  federated = true;
  scheduling = 0;
}

abbrev customer : Client
customer = record {
  client_address = 5;
  nodes = 1;
  cores = pos 2;
  need_memory = pos 10;
  run_time = pos 7;
  load = pos 50;
  loaded_time = pos 1;
  input_data = pos 9;
  output_data = pos 0;
  rms_nmb = pos 0;
  job_priority = pos 1;
  sub_time = pos 0;
}

abbrev federation : Bool → Uso
federation green = record {
  rms_list =
      record { id = 0; rms = initialize center } ∷ record { id = 1; rms = initialize center } ∷ [];
  num_rms = 2;
  previous_rms = negsuc 0;
  fit4green = green;
  clients = customer ∷ [];
  now = pos 0;
  scheduled = [];
}

federation-HasSites : HasSites (federation true)
federation-HasSites = record {
  numbered = (refl, (refl, tt));
  counted = refl;
  served = ((initialize-Ready center).has_servers, ((initialize-Ready center).has_servers, tt));
}

-- The estimate is the same everywhere.
abbrev flat : Rms → Client → ℤ
flat r c = pos 3

-- Clients 5 and 6 take turns, and so do the two kinds of strategy.
abbrev asks_green : ℕ → Bool
asks_green k = ltb k 2

abbrev turns : ℕ → ℕ
turns k = if ltb k 1 then 5 else 6

select_repeatedly_lem_example :
    select_repeatedly (λ k. flat) asks_green turns 3 (federation false)
    ≡ ok (pos (3 % 2), record (federation false) { previous_rms = pos (3 % 2) })
select_repeatedly_lem_example =
    select_repeatedly_lem (λ k. flat) asks_green turns 3 1 (federation false) refl refl refl

servers_there : All (λ (s : RmsInfo). 0 < s.rms.num_servers) (federation true).rms_list
unfolding initialize
servers_there = (omega arith, (omega arith, tt))

find_soonest-Shortest_example :
    (n : ℤ) × (find_soonest 5 2 0 no_site (federation true) ≡ ok (n, federation true))
    × Shortest customer (federation true).rms_list n
unfolding lookup_client
find_soonest-Shortest_example =
    find_soonest-Shortest (federation true) 5 customer refl (omega arith) federation-HasSites
      (omega arith) servers_there

select_energy_aware_lem_example :
    (n : ℤ) × (select_energy_aware flat 5 (federation true) ≡ ok n)
    × (Greenly flat customer (federation true).rms_list n
        ⊎ (All (λ s. has_short_queue s ≡ false) (federation true).rms_list
            × LeastLoaded (federation true).rms_list n))
unfolding lookup_client
select_energy_aware_lem_example =
    select_energy_aware_lem (federation true) 5 customer refl (omega arith) federation-HasSites flat
      (omega arith) servers_there

abbrev asked : Request
asked = record {
  expected_reply_length = 1;
  run_time = pos 7;
  memory = pos 10;
  nodes = 1;
  cores = pos 2;
  load = pos 50;
  input_data = pos 9;
  loaded_time = pos 1;
  energy_aware = true;
}

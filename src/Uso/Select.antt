-- ===== src/Uso/Select.antt =====
-- selectRMS of SuperComUSO.cc. The estimate of a job's energy at a site, computed in floating point,
-- is a parameter; a time, load or estimate of -1, of no site yet, is `none`.
pub mod RoundRobin
pub mod Delay
pub mod Energy
pub mod Load
use cplusplus_projects.Common.{
  ℕ, zero, suc, ◌+◌, ◌-◌, ◌*◌, ◌==◌, Bool, true, false, ◌&&◌, ◌||◌, List, [], ◌∷◌, Option, none,
  some, ℤ, pos, negsuc, ◌+ℤ◌, ltb_ℤ, ◌==ℤ◌, ltb, if◌then◌else◌, length, Result, ok, fault, ◌>>=◌,
}
use cplusplus_projects.Rms.State.{Rms}
use cplusplus_projects.Uso.Ratio.{Ratio, leb_ratio, ltb_ratio}
use cplusplus_projects.Uso.State.{
  RmsInfo, Client, Uso, lookup_rms, lookup_client, total_cores, average_queue_time,
  search_rms_servers,
}

-- The round-robin choice after `previous`, of `n` sites.
abbrev pub next_rms : ℕ → ℤ → ℤ
next_rms n previous =
    if previous ==ℤ negsuc 0
    then pos 0
    else (if ltb_ℤ (pos n +ℤ negsuc 0) (previous +ℤ pos 1) then pos 0 else previous +ℤ pos 1)

-- The candidate of the search for the shortest delay.
pub record Soonest : Type 0 where
  pub selected : ℤ
  pub queue_time : Option Ratio
  pub queue_length : ℤ

abbrev pub no_site : Soonest
no_site = record { selected = negsuc 0; queue_time = none; queue_length = negsuc 0 }

abbrev pub no_later : Rms → Option Ratio → Bool
no_later r none = true
no_later r (some t) = leb_ratio (average_queue_time r) t

abbrev pub is_sooner : Rms → Soonest → Bool
is_sooner r b =
    no_later r b.queue_time
    && (ltb_ℤ (pos (length r.job_queue)) b.queue_length || (b.queue_length ==ℤ negsuc 0))

abbrev pub site_of : ℕ → Rms → Soonest
site_of i r = record {
  selected = pos i;
  queue_time = some (average_queue_time r);
  queue_length = pos (length r.job_queue);
}

-- The loop over the sites, with `n` left from site `i` on.
unfoldable pub find_soonest : ℕ → ℕ → ℕ → Soonest → Uso → Result (ℤ × Uso)
find_soonest a zero i b u = ok (b.selected, u)
find_soonest a (suc n) i b u = do
  found ← search_rms_servers i a u
  s ← lookup_rms found.1.rms_list i
  waits_on ← total_cores s.rms
  let rest = find_soonest a n (suc i) (if is_sooner s.rms b then site_of i s.rms else b) found.1
  (if (length s.rms.job_queue == 0) && found.0 then ok (pos i, found.1) else rest)

-- The load of a site, its queue over its servers, and the test that it is below 0.7.
abbrev pub queue_load : Rms → Ratio
queue_load r = record { over = pos (length r.job_queue); under = r.num_servers }

abbrev pub seven_tenths : Ratio
seven_tenths = record { over = pos 7; under = 10 }

-- The candidate of the search for the least energy.
pub record Greenest : Type 0 where
  pub selected : ℤ
  pub cluster_found : Bool
  pub candidate_estimate : Option ℤ

abbrev pub is_less : ℤ → Option ℤ → Bool
is_less e none = true
is_less e (some f) = ltb_ℤ e f

abbrev pub is_lower : Ratio → Option Ratio → Bool
is_lower e none = true
is_lower e (some f) = ltb_ratio e f

module _ (energy_estimate : Rms → Client → ℤ) where
  abbrev pub greener : ℕ → Rms → Client → Greenest → Greenest
  greener i r c b =
      if ltb_ratio (queue_load r) seven_tenths && is_less (energy_estimate r c) b.candidate_estimate
      then record {
        selected = pos i;
        cluster_found = true;
        candidate_estimate = some (energy_estimate r c);
      }
      else b

  unfoldable pub find_greenest : ℕ → ℕ → ℕ → Greenest → Uso → Result Greenest
  find_greenest a zero i b u = ok b
  find_greenest a (suc n) i b u = do
    s ← lookup_rms u.rms_list i
    c ← lookup_client u.clients a
    find_greenest a n (suc i) (greener i s.rms c b) u

-- The site with the least load, after `selected` with the load `threshold`.
unfoldable pub find_least_loaded : ℕ → ℕ → ℤ → Option Ratio → Uso → Result ℤ
find_least_loaded zero i selected threshold u = ok selected
find_least_loaded (suc n) i selected threshold u = do
  s ← lookup_rms u.rms_list i
  let lower = is_lower (queue_load s.rms) threshold
  find_least_loaded n (suc i) (if lower then pos i else selected)
      (if lower then some (queue_load s.rms) else threshold) u

abbrev pub no_cluster : Greenest
no_cluster = record { selected = pos 0; cluster_found = false; candidate_estimate = none }

unfoldable pub select_energy_aware : (Rms → Client → ℤ) → ℕ → Uso → Result ℤ
select_energy_aware energy_estimate a u = do
  b ← find_greenest energy_estimate a u.num_rms 0 no_cluster u
  if b.cluster_found then ok b.selected else find_least_loaded u.num_rms 0 b.selected none u

unfoldable pub select_rms : (Rms → Client → ℤ) → Bool → ℕ → Uso → Result (ℤ × Uso)
select_rms energy_estimate energy_aware a u =
    if u.fit4green
    then (if energy_aware
        then (select_energy_aware energy_estimate a u >>= λ n. ok (n, u))
        else find_soonest a u.num_rms 0 no_site u)
    else (let n = next_rms u.num_rms u.previous_rms in ok (n, record u { previous_rms = n }))

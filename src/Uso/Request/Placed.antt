-- ===== src/Uso/Request/Placed.antt =====
-- Every request of a new client is placed at a site of the federation.
use cplusplus_projects.Common.{
  ℕ, ◌<◌, ◌≡◌, ◌⊎◌, Bool, [], ◌∷◌, ◌++◌, ℤ, pos, negsuc, ◌≤ℤ◌, if◌then◌else◌, All, Result, ok,
  ◌>>=◌,
}
use cplusplus_projects.Rms.State.{Rms}
use cplusplus_projects.Uso.State.{Client, Uso, lookup_client}
use cplusplus_projects.Uso.Select.{next_rms, no_site, find_soonest, select_energy_aware}
use cplusplus_projects.Uso.Sites.{HasSites}
use cplusplus_projects.Uso.Request.{Request, new_client, set_rms_nmb, job_message}

-- The last choice of the round robin is a site, or none was made yet.
abbrev pub PreviousIn : ℕ → ℤ → Type 0
PreviousIn n p = (p ≡ negsuc 0) ⊎ ((k : ℕ) × (p ≡ pos k) × (k < n))

-- The choice is a site, and nothing but the round robin's last choice changes.
pub record InRange (u : Uso) (r : Result (ℤ × Uso)) : Type 0 where
  pub site : ℕ
  pub previous : ℤ
  pub returns : r ≡ ok (pos site, record u { previous_rms = previous })
  pub within : site < u.num_rms
  pub turn : PreviousIn u.num_rms previous

module _ (energy_estimate : Rms → Client → ℤ) (u : Uso) (a : ℕ) (c : Client)
    (known : lookup_client u.clients a ≡ ok c) (cores : pos 0 ≤ℤ c.cores) (h : HasSites u)
    (some_site : 0 < u.num_rms) (servers : All (λ s. 0 < s.rms.num_servers) u.rms_list)
    (turn : PreviousIn u.num_rms u.previous_rms) where
  abbrev green_choice : Bool → Result (ℤ × Uso)
  green_choice aware =
      if aware
      then (select_energy_aware energy_estimate a u >>= λ n. ok (n, u))
      else find_soonest a u.num_rms 0 no_site u

  abbrev plain_choice : Result (ℤ × Uso)
  plain_choice = let n = next_rms u.num_rms u.previous_rms in ok (n, record u { previous_rms = n })

-- The new client, with the number of its site.
abbrev pub placed_client : ℤ → ℕ → Request → ℤ → ℕ → Client
placed_client junk a m now k = set_rms_nmb (pos k) (new_client junk a m now)

-- The client is listed with the number of a site, and the message for that site is scheduled.
pub record Placed (u : Uso) (junk : ℤ) (a : ℕ) (m : Request) (r : Result Uso) : Type 0 where
  pub site : ℕ
  pub previous : ℤ
  pub returns :
      r
      ≡ ok (record u {
        clients = u.clients ++ placed_client junk a m u.now site ∷ [];
        previous_rms = previous;
        scheduled = u.scheduled ++ job_message u.now (placed_client junk a m u.now site) ∷ [];
      })
  pub within : site < u.num_rms
  pub turn : PreviousIn u.num_rms previous

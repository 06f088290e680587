-- ===== src/Rms/Finish/Jobs.antt =====
-- What removeServerJobs leaves, for a client with one job on the server.
use cplusplus_projects.Common.{
  ℕ, ◌≡◌, ◌≢◌, refl, ap, ◌∙◌, ◌==◌, Bool, true, false, List, [], ◌∷◌, ℤ, pos, ◌+ℤ◌, ◌-ℤ◌, ◌≤ℤ◌,
  arith, All, +ℤ_parts, -ℤ_parts, eq_of_parts,
}
use cplusplus_projects.Rms.State.{Job}
use cplusplus_projects.Rms.Connect.Capacity.{sum_cores}
use cplusplus_projects.Rms.Finish.{remove_jobs}

-- The list holds exactly one job of client `a`, with `cores` cores.
pub data HoldsOne (a : ℕ) (cores : ℤ) : List Job → Type 0 where
  here :
      {js : List Job} (j : Job)
      → j.client_address ≡ a
      → j.cores ≡ cores
      → All (λ k. k.client_address ≢ a) js
      → HoldsOne a cores (j ∷ js)
  there :
      {js : List Job} (j : Job)
      → j.client_address ≢ a
      → HoldsOne a cores js
      → HoldsOne a cores (j ∷ js)

remove_jobs-none :
    (a : ℕ) (over : Bool) (js : List Job)
    → All (λ k. k.client_address ≢ a) js
    → remove_jobs a over js ≡ js
unfolding remove_jobs
remove_jobs-none a over [] h = refl
remove_jobs-none a true (j ∷ js) h = ap (◌∷◌ j) (remove_jobs-none a false js h.1)
remove_jobs-none a false (j ∷ js) h =
    let other : (j.client_address == a) ≡ false = ground (arith, h.0) in
    rw (other, remove_jobs) (ap (◌∷◌ j) (remove_jobs-none a false js h.1))

-- The sum of the cores loses those of the job.
pub remove_jobs-sum :
    (a : ℕ) (cores : ℤ) (js : List Job)
    → HoldsOne a cores js
    → sum_cores (remove_jobs a false js) ≡ sum_cores js -ℤ cores
unfolding remove_jobs
remove_jobs-sum a cores [] h = elim h [ ]
remove_jobs-sum a cores (j ∷ js) (here _ same e others) =
    let this : (j.client_address == a) ≡ true = ground (arith, same) in
    rw (this, ← e, remove_jobs)
      (ap sum_cores (remove_jobs-none a true js others)
        ∙ eq_of_parts (sum_cores js) (j.cores +ℤ sum_cores js -ℤ j.cores) (
            omega
              (arith, +ℤ_parts j.cores (sum_cores js), -ℤ_parts (j.cores +ℤ sum_cores js) j.cores)))
remove_jobs-sum a cores (j ∷ js) (there _ ne h) =
    let other : (j.client_address == a) ≡ false = ground (arith, ne) in
    rw (other, remove_jobs)
      (ap (◌+ℤ◌ j.cores) (remove_jobs-sum a cores js h)
        ∙ eq_of_parts (j.cores +ℤ (sum_cores js -ℤ cores)) (j.cores +ℤ sum_cores js -ℤ cores) (
            omega (
              arith,
              +ℤ_parts j.cores (sum_cores js -ℤ cores),
              -ℤ_parts (sum_cores js) cores,
              +ℤ_parts j.cores (sum_cores js),
              -ℤ_parts (j.cores +ℤ sum_cores js) cores,
            )))

sum_cores-nonneg : (js : List Job) → All (λ j. pos 0 ≤ℤ j.cores) js → pos 0 ≤ℤ sum_cores js
sum_cores-nonneg [] h = omega arith
sum_cores-nonneg (j ∷ js) h =
    omega (arith, +ℤ_parts j.cores (sum_cores js), sum_cores-nonneg js h.1, h.0)

-- No job needs a negative number of cores, so one job needs no more than all together.
pub HoldsOne-sum :
    (a : ℕ) (cores : ℤ) (js : List Job)
    → HoldsOne a cores js
    → All (λ j. pos 0 ≤ℤ j.cores) js
    → (pos 0 ≤ℤ cores) × (cores ≤ℤ sum_cores js)
HoldsOne-sum a cores [] one h = elim one [ ]
HoldsOne-sum a cores (j ∷ js) (here _ same e others) h =
    let rest = sum_cores-nonneg js h.1 in
    rw (← e) (h.0, omega (arith, rest, +ℤ_parts j.cores (sum_cores js)))
HoldsOne-sum a cores (j ∷ js) (there _ ne one) h =
    let (nonneg, rest) = HoldsOne-sum a cores js one h.1 in
    (nonneg, omega (arith, h.0, rest, +ℤ_parts j.cores (sum_cores js)))

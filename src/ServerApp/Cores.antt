-- ===== src/ServerApp/Cores.antt =====
-- The loops of SuperComServerApp.cc over cores, memory sticks and loaded times.
pub mod Marked
pub mod Undone
use cplusplus_projects.Common.{
  ℕ, zero, suc, ◌*◌, Bool, true, false, List, [], ◌∷◌, map, ℤ, pos, ◌+ℤ◌, ltb_ℤ, leb_ℤ, ◌==ℤ◌,
  if◌then◌else◌,
}
use cplusplus_projects.ServerApp.State.{RamStick, idle_load, whole}

-- needLoad + 0.5.
abbrev pub job_load : ℤ → ℤ
job_load load = load +ℤ load +ℤ pos 1

-- The load of a core that a job gets, at most 100.
abbrev pub clamped_load : ℤ → ℤ
clamped_load load = if ltb_ℤ (pos 200) (job_load load) then pos 200 else job_load load

-- The loop over the cores of a CPU: those of load `old` get the load `new`, until `need` cores have
-- it, `n` of them before. The number of cores that have it is answered too.
unfoldable pub mark_cpu : ℤ → ℤ → ℤ → ℕ → List ℤ → List ℤ × ℕ
mark_cpu old new need n [] = ([], n)
mark_cpu old new need n (c ∷ cs) =
    let rest = mark_cpu old new need (if c ==ℤ old then suc n else n) cs in
    if c ==ℤ old
    then (if pos (suc n) ==ℤ need then (new ∷ cs, suc n) else (new ∷ rest.0, rest.1))
    else (c ∷ rest.0, rest.1)

-- The allocation of a job's cores, which are idle.
unfoldable pub allocate_cores : ℤ → ℤ → ℕ → List (List ℤ) → List (List ℤ)
allocate_cores load need n [] = []
allocate_cores load need n (c ∷ cs) =
    let d = mark_cpu idle_load (clamped_load load) need n c in
    let rest = allocate_cores load need d.1 cs in if pos d.1 ==ℤ need then d.0 ∷ cs else d.0 ∷ rest

-- The return of a job's cores, which are found by their load.
unfoldable pub unload_cores : ℤ → ℤ → ℕ → List (List ℤ) → List (List ℤ)
unload_cores load need n [] = []
unload_cores load need n (c ∷ cs) =
    let d = mark_cpu (job_load load) idle_load need n c in
    let rest = unload_cores load need d.1 cs in if pos n ==ℤ need then c ∷ cs else d.0 ∷ rest

-- The same load for every core.
unfoldable pub set_loads : ℤ → List (List ℤ) → List (List ℤ)
set_loads load cs = map (map (λ _. load)) cs

-- The loop over the memory sticks, from number `i` on: those up to the first that suffices for the
-- memory in use are loaded.
unfoldable pub load_ram : ℤ → ℕ → Bool → List RamStick → List RamStick
load_ram used i temp [] = []
load_ram used i temp (r ∷ rs) =
    let rest = if leb_ℤ used (pos (suc i * r.size)) then false else temp in
    record r { loaded = temp } ∷ load_ram used (suc i) rest rs

abbrev pub unloaded : RamStick → RamStick
unloaded r = record r { loaded = false }

abbrev pub unload_ram : List RamStick → List RamStick
unload_ram rs = map unloaded rs

-- computeLoadedTime, twice its result: the least time and the sum, at most twice the whole. `first`
-- is what the vector's element 0 is read as.
abbrev pub least : ℤ → List ℤ → ℤ
least m [] = m
least m (x ∷ xs) = least (if ltb_ℤ x m then x else m) xs

abbrev pub sum : ℤ → List ℤ → ℤ
sum m [] = m
sum m (x ∷ xs) = sum (m +ℤ x) xs

abbrev pub first_time : ℤ → List ℤ → ℤ
first_time behind [] = behind
first_time behind (x ∷ xs) = x

unfoldable pub compute_loaded_time : ℤ → List ℤ → ℤ
compute_loaded_time behind xs =
    let twice = least (first_time behind xs) xs +ℤ sum (pos 0) xs in
    if ltb_ℤ (whole +ℤ whole) twice then whole +ℤ whole else twice

-- removeLoadedTime: behind an element that is erased the loop skips one.
unfoldable pub remove_loaded_time : ℤ → Bool → List ℤ → List ℤ
remove_loaded_time t skip [] = []
remove_loaded_time t true (x ∷ xs) = x ∷ remove_loaded_time t false xs
remove_loaded_time t false (x ∷ xs) =
    let rest = remove_loaded_time t (x ==ℤ t) xs in if x ==ℤ t then rest else x ∷ rest

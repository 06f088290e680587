-- ===== src/Rms/Search.antt =====
-- searchServers, isResourcesAvailable and calculateFreeResources of SuperComRmsApp.cc.
pub mod Best
pub mod Picks
pub mod Outcome
use cplusplus_projects.Common.{
  ℕ, zero, suc, ◌+◌, ◌<◌, ◌≤◌, ◌≡◌, Bool, true, false, not, ◌&&◌, ◌||◌, List, [], ◌∷◌, ℤ, pos, ◌+ℤ◌,
  ◌-ℤ◌, ◌*ℤ◌, ◌==ℤ◌, ltb_ℤ, leb_ℤ, if◌then◌else◌, Result, ok, fault, Fault, ◌>>=◌,
}
use cplusplus_projects.Rms.State.{
  ServerState, idle, running, down, standby, hybernated, Server, Rms, minus_one, lookup_server,
  update_server, set_reserved, is_asleep, is_idle,
}

-- The local variables of the search for one server: serverNumber[j], candidateCores and
-- candidateState.
pub record Candidate : Type 0 where
  pub number : ℤ
  pub cores : ℤ
  pub state : ServerState

-- serverNumber[j] and candidateCores start at -1.
abbrev pub start_candidate : ServerState → Candidate
start_candidate st = record { number = minus_one; cores = minus_one; state = st }

abbrev pub available : Server → ℤ
available s = s.num_cores -ℤ s.cores_in_use

-- Enough memory, not reserved and enough free cores.
abbrev pub suits : ℤ → ℤ → Server → Bool
suits mem cores s = leb_ℤ mem s.memory && (not s.reserved && leb_ℤ cores (available s))

-- The body of the inner loop, at server number `i`.
unfoldable pub consider : ℤ → ℤ → ℕ → Server → Candidate → Candidate
consider mem cores i s c =
    if suits mem cores s
    then (if ltb_ℤ (available s) c.cores || (c.cores ==ℤ minus_one)
        then taken
        else (if (available s ==ℤ c.cores) && is_asleep c.state then taken else c))
    else c
  where
    taken : Candidate
    taken = record { number = pos i; cores = available s; state = s.state }

-- for (i = 0; i < numServers; i++), with the rounds left first.
unfoldable pub scan : ℤ → ℤ → List Server → ℕ → ℕ → Candidate → Result Candidate
scan mem cores xs zero i c = ok c
scan mem cores xs (suc n) i c =
    lookup_server xs (pos i) >>= λ s. scan mem cores xs n (suc i) (consider mem cores i s c)

-- serverNumber[j] is reserved, if there is one.
abbrev pub reserve_picked : List Server → ℤ → Result (List Server)
reserve_picked xs n = if n ==ℤ minus_one then ok xs else update_server xs n (set_reserved true)

-- for (j = 0; j < nodes; j++): the numbers found, and the servers with those reserved.
-- candidateState is declared outside the loop.
unfoldable pub pick_servers :
    ℤ → ℤ → ℕ → ℕ → ServerState → List Server → Result (List ℤ × List Server)
pick_servers mem cores num zero st xs = ok ([], xs)
pick_servers mem cores num (suc k) st xs = do
  c ← scan mem cores xs num 0 (start_candidate st)
  ys ← reserve_picked xs c.number
  rest ← pick_servers mem cores num k c.state ys
  ok (c.number ∷ rest.0, rest.1)

-- for (k = 0; k < nodes; k++): a missing server clears `found`; the others are released.
unfoldable pub release_picked : List ℤ → Bool → List Server → Result (Bool × List Server)
release_picked [] found xs = ok (found, xs)
release_picked (n ∷ ns) found xs =
    if n ==ℤ minus_one
    then release_picked ns false xs
    else (update_server xs n (set_reserved false) >>= λ ys. release_picked ns found ys)

-- searchServers: serverNumber, serversFound, and the list of servers afterwards.
pub record Found : Type 0 where
  pub numbers : List ℤ
  pub found : Bool
  pub servers : List Server

unfoldable pub search_servers : Rms → ℕ → ℤ → ℤ → Bool → Result Found
search_servers r nodes mem cores found = do
  picked ← pick_servers mem cores r.num_servers nodes idle r.servers
  released ← release_picked picked.0 found picked.1
  ok (record { numbers = picked.0; found = released.0; servers = released.1 })

-- isResourcesAvailable: some server sleeps or idles, or has a free core.
unfoldable pub scan_available : List Server → ℕ → ℕ → Result Bool
scan_available xs zero i = ok false
scan_available xs (suc n) i = lookup_server xs (pos i) >>= λ s.
    if is_idle s.state || is_asleep s.state || ltb_ℤ (pos 0) (available s)
    then ok true
    else scan_available xs n (suc i)

unfoldable pub is_resources_available : Rms → Result Bool
is_resources_available r = scan_available r.servers r.num_servers 0

-- calculateFreeResources: the sums over the free servers, less what the job takes.
pub record Free : Type 0 where
  pub free_nodes : ℤ
  pub free_memory : ℤ
  pub free_cores : ℤ

unfoldable pub add_free : ℤ → Server → Free → Free
add_free cores s f =
    if ltb_ℤ s.cores_in_use s.num_cores && ltb_ℤ (pos 0) (available s -ℤ cores)
    then record {
      free_nodes = f.free_nodes +ℤ pos 1;
      free_cores = f.free_cores +ℤ available s;
      free_memory = f.free_memory +ℤ s.memory;
    }
    else f

unfoldable pub sum_free : ℤ → List Server → ℕ → ℕ → Free → Result Free
sum_free cores xs zero i f = ok f
sum_free cores xs (suc n) i f =
    lookup_server xs (pos i) >>= λ s. sum_free cores xs n (suc i) (add_free cores s f)

unfoldable pub calculate_free_resources : Rms → ℕ → ℤ → ℤ → Free → Result Free
calculate_free_resources r nodes mem cores f = do
  g ← sum_free cores r.servers r.num_servers 0 f
  ok (record {
    free_nodes = g.free_nodes -ℤ pos nodes;
    free_memory = g.free_memory -ℤ mem *ℤ pos nodes;
    free_cores = g.free_cores -ℤ cores *ℤ pos nodes;
  })

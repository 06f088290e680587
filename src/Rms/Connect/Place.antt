-- ===== src/Rms/Connect/Place.antt =====
-- A search that finds servers, and then the connections with them.
use mathlib.Core.Path.{subst}
use native.Mathlib.Nat.{zero-add}
use cplusplus_projects.Common.{
  ℕ, suc, ◌+◌, ◌≤◌, ◌≡◌, refl, sym, ap, ◌∙◌, true, List, [], ◌∷◌, some, ℤ, pos, ◌+ℤ◌, ◌≤ℤ◌, ◌==ℤ◌,
  ok, arith, Bool-cases, inl, inr, All, get_elem?, some_inj, ==ℤ→eq,
}
use cplusplus_projects.Rms.State.{Job, Server, Client, Rms, lookup_client}
use cplusplus_projects.Rms.Numbered.{Numbered, lookup_server-get}
use cplusplus_projects.Rms.Search.{Found, search_servers}
use cplusplus_projects.Rms.Search.Picks.{Picks, count_suits}
use cplusplus_projects.Rms.Search.Outcome.{HasServers, Placed, Picks-Placed, search_servers_lem}
use cplusplus_projects.Rms.Connect.{init_server_connection}
use cplusplus_projects.Rms.Connect.Load.{loads}
use cplusplus_projects.Rms.Connect.Charge.{contains}
use cplusplus_projects.Rms.Connect.Capacity.{
  RoomIfListed, IsSound, charged-all, suits_room, init_server_connection-charge,
}
use cplusplus_projects.Rms.Connect.Total.{HasRoom, init_server_connection_total}

-- A number that is listed among placed ones is that of a server that suits.
listed_suits :
    (mem cores : ℤ) (xs : List Server) (ns : List ℤ) (q : ℕ) (s : Server)
    → get_elem? xs q ≡ some s
    → All (Placed mem cores xs) ns
    → contains (pos q) ns ≡ true
    → s.cores_in_use +ℤ cores ≤ℤ s.num_cores
listed_suits mem cores xs [] q s g a h = cc
listed_suits mem cores xs (n ∷ ns) q s g ((p, t, e, g', f), a) h = elim (Bool-cases (pos q ==ℤ n)) [
  | inl same ↦
      let e' : p ≡ q = ground (arith, ==ℤ→eq (pos q) n same) in
      let st : t ≡ s = some_inj (sym g' ∙ ap (get_elem? xs) e' ∙ g) in
      rw (← st) (suits_room mem cores t f)
  | inr other ↦ listed_suits mem cores xs ns q s g a (rw other at h)
]

rooms_from :
    (mem cores : ℤ) (whole : List Server) (ns : List ℤ) (k : ℕ) (xs : List Server)
    → All (Placed mem cores whole) ns
    → Numbered k xs
    → ((i : ℕ) (s : Server) → get_elem? xs i ≡ some s → get_elem? whole (k + i) ≡ some s)
    → All (RoomIfListed cores ns) (loads xs)
rooms_from mem cores whole ns k [] a h sub = tt
rooms_from mem cores whole ns k (x ∷ xs) a h sub =
    let e : k + 0 ≡ x.id = omega (arith, h.0) in
    let here = subst (λ i. get_elem? whole i ≡ some x) e (sub 0 x refl) in
    (
      listed_suits mem cores whole ns x.id x here a,
      rooms_from mem cores whole ns (suc k) xs a h.1
          (λ i s g. let next : suc k + i ≡ k + suc i = omega arith in rw next (sub (suc i) s g)),
    )

pub Placed-HasRoom :
    (mem cores : ℤ) (xs : List Server) (ns : List ℤ)
    → Numbered 0 xs
    → All (Placed mem cores xs) ns
    → All (HasRoom cores xs) ns
Placed-HasRoom mem cores xs [] h a = tt
Placed-HasRoom mem cores xs (n ∷ ns) h ((p, s, e, g, f), a) = (
  (s, rw e (lookup_server-get 0 p p xs s h (omega arith) g), suits_room mem cores s f),
  Placed-HasRoom mem cores xs ns h a,
)

-- Connections with the servers of a greedy selection keep every server sound.
pub connection-IsSound :
    (r q : Rms) (ns : List ℤ) (j : Job)
    → Numbered 0 r.servers
    → pos 0 ≤ℤ j.cores
    → Picks j.need_memory j.cores r.servers ns
    → All IsSound (loads r.servers)
    → init_server_connection r ns j ≡ ok q
    → All IsSound (loads q.servers) × Numbered 0 q.servers
connection-IsSound r q ns j h c picks sound e =
    let (d, a) = Picks-Placed j.need_memory j.cores r.servers ns picks in
    let (wakes, same, h') = init_server_connection-charge r q ns j e h d in
    let rooms =
      rooms_from j.need_memory j.cores r.servers ns 0 r.servers a h (λ i s g. rw zero-add g) in
    (rw same (charged-all j wakes r.now ns (loads r.servers) c rooms sound), h')

-- With the servers numbered from 0 on and counted, no server with more cores in use than it has or
-- fewer than none, and the cores in use those of its jobs: when as many servers suit a job as it
-- needs nodes, the job needs no negative number of cores, and its client is registered with the
-- same number of nodes and no server yet, then the search finds servers, the connections with them
-- are initiated without a fault, and afterwards the same holds of the cores of every server.
pub search_then_connect :
    (r : Rms) (j : Job) (c : Client)
    → HasServers r
    → All IsSound (loads r.servers)
    → pos 0 ≤ℤ j.cores
    → j.nodes ≤ count_suits j.need_memory j.cores r.servers
    → lookup_client r.clients j.client_address ≡ ok c
    → c.server_nmb ≡ []
    → c.nodes ≡ j.nodes
    → (f : Found) × (q : Rms) × (search_servers r j.nodes j.need_memory j.cores true ≡ ok f)
      × (f.found ≡ true)
      × (init_server_connection (record r { servers = f.servers }) f.numbers j ≡ ok q)
      × All IsSound (loads q.servers)
search_then_connect r j c h sound cores enough there fresh nodes =
    let (ns, e, size, greedy) = search_servers_lem r j.nodes j.need_memory j.cores true h cores in
    let picks = greedy enough in
    let (d, a) = Picks-Placed j.need_memory j.cores r.servers ns picks in
    let (q, u) =
      init_server_connection_total r ns j c
        (Placed-HasRoom j.need_memory j.cores r.servers ns h.numbered a) d there fresh
        (size ∙ sym nodes) in
    (_, q, e, ground arith, u, (connection-IsSound r q ns j h.numbered cores picks sound u).0)

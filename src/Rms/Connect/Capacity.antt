-- ===== src/Rms/Connect/Capacity.antt =====
-- No server is given more cores than it has, and the cores in use are those of its jobs.
use mathlib.Core.Path.{subst}
use cplusplus_projects.Common.{
  ℕ, ◌≡◌, refl, sym, ap, ◌∙◌, Bool, true, false, List, [], ◌∷◌, ◌++◌, map, ℤ, pos, ◌+ℤ◌, ◌≤ℤ◌, ok,
  arith, Bool-cases, inl, inr, All, >>=-eq-ok, +ℤ_parts, -ℤ_parts, eq_of_parts, ok_inj,
}
use cplusplus_projects.Rms.State.{Job, Server, Rms}
use cplusplus_projects.Rms.Numbered.{Numbered}
use cplusplus_projects.Rms.Search.{suits}
use cplusplus_projects.Rms.Search.Outcome.{Distinct}
use cplusplus_projects.Rms.Connect.{
  reserve_cores, add_server_jobs, request_unless, job_entry, set_client_server_number,
  init_server_connection,
}
use cplusplus_projects.Rms.Connect.Load.{Load, loads}
use cplusplus_projects.Rms.Connect.Charge.{
  contains, charge, charge_cores, charge_job, add_server_jobs-charge, reserve_cores-charge,
  send_client_requests-loads,
}

request_unless-loads :
    (w : Bool) (k a : ℕ) (r q : Rms)
    → request_unless w r a ≡ ok q
    → Numbered k r.servers
    → (loads q.servers ≡ loads r.servers) × Numbered k q.servers
unfolding request_unless
request_unless-loads true k a r q e h =
    let same : r.servers ≡ q.servers = ap (λ (p : Rms). p.servers) (ok_inj e) in
    rw (← same) (refl, h)
request_unless-loads false k a r q e h = send_client_requests-loads k a r q e h

-- The job as it enters the job list of a server.
abbrev pub placed : Job → Bool → ℤ → Job
placed = job_entry

-- What a server's load becomes: the listed servers take the job and its cores.
abbrev pub charged : Job → Bool → ℤ → List ℤ → Load → Load
charged j wakes now ns l =
    charge (charge_job (placed j wakes now)) ns (charge (charge_cores j.cores) ns l)

map-map : (f g : Load → Load) (ls : List Load) → map f (map g ls) ≡ map (λ l. f (g l)) ls
map-map f g [] = refl
map-map f g (l ∷ ls) = ap (◌∷◌ (f (g l))) (map-map f g ls)

-- Initiating connections with distinct servers charges exactly these with the job and its cores,
-- and leaves the load of every other server as it was.
pub init_server_connection-charge :
    (r q : Rms) (ns : List ℤ) (j : Job)
    → init_server_connection r ns j ≡ ok q
    → Numbered 0 r.servers
    → Distinct ns
    → (wakes : Bool) × (loads q.servers ≡ map (charged j wakes r.now ns) (loads r.servers))
      × Numbered 0 q.servers
unfolding init_server_connection
init_server_connection-charge r q ns j e h d =
    let (cs, u, v) = >>=-eq-ok (set_client_server_number ns j.client_address r.clients) _ e in
    let (p, u1, v1) = >>=-eq-ok (reserve_cores j ns (record r { clients = cs }) false) _ v in
    let (xs, u2, v2) = >>=-eq-ok (add_server_jobs (placed j p.1 r.now) ns p.0.servers) _ v1 in
    let (l1, h1) = reserve_cores-charge j 0 ns (record r { clients = cs }) p.0 false p.1 u1 h d in
    let (l2, h2) = add_server_jobs-charge (placed j p.1 r.now) 0 ns p.0.servers xs u2 h1 d in
    let (l3, h3) =
      request_unless-loads p.1 0 j.client_address (record p.0 { servers = xs }) q v2 h2 in
    (
      p.1,
      l3
          ∙ l2
          ∙ ap (map (charge (charge_job (placed j p.1 r.now)) ns)) l1
          ∙ map-map (charge (charge_job (placed j p.1 r.now)) ns) (charge (charge_cores j.cores) ns)
              (loads r.servers),
      h3,
    )

abbrev pub sum_cores : List Job → ℤ
sum_cores [] = pos 0
sum_cores (j ∷ js) = j.cores +ℤ sum_cores js

sum_cores-append : (js : List Job) (j : Job) → sum_cores (js ++ j ∷ []) ≡ sum_cores js +ℤ j.cores
sum_cores-append [] j =
    eq_of_parts _ _ (omega (arith, +ℤ_parts j.cores (pos 0), +ℤ_parts (pos 0) j.cores))
sum_cores-append (x ∷ js) j =
    ap (◌+ℤ◌ x.cores) (sum_cores-append js j)
    ∙ eq_of_parts (x.cores +ℤ (sum_cores js +ℤ j.cores)) (x.cores +ℤ sum_cores js +ℤ j.cores) (
        omega (
          arith,
          +ℤ_parts x.cores (sum_cores js +ℤ j.cores),
          +ℤ_parts (sum_cores js) j.cores,
          +ℤ_parts (x.cores +ℤ sum_cores js) j.cores,
          +ℤ_parts x.cores (sum_cores js),
        ))

-- The cores in use are those of the jobs, at least none and at most all.
pub record IsSound (l : Load) : Type 0 where
  pub accounted : l.cores_in_use ≡ sum_cores l.jobs
  pub nonneg : pos 0 ≤ℤ l.cores_in_use
  pub capacity : l.cores_in_use ≤ℤ l.num_cores

charged_listed :
    (j : Job) (wakes : Bool) (now : ℤ) (ns : List ℤ) (l : Load)
    → contains (pos l.id) ns ≡ true
    → charged j wakes now ns l ≡ record l {
      cores_in_use = l.cores_in_use +ℤ j.cores;
      jobs = l.jobs ++ record (placed j wakes now) { server_index = pos l.id } ∷ [];
    }
charged_listed j wakes now ns l h = rw h (rw h)

charged_unlisted :
    (j : Job) (wakes : Bool) (now : ℤ) (ns : List ℤ) (l : Load)
    → contains (pos l.id) ns ≡ false
    → charged j wakes now ns l ≡ l
charged_unlisted j wakes now ns l h = rw h (rw h)

pub charged-num_cores :
    (j : Job) (wakes : Bool) (now : ℤ) (ns : List ℤ) (l : Load)
    → (charged j wakes now ns l).num_cores ≡ l.num_cores
charged-num_cores j wakes now ns l = elim (Bool-cases (contains (pos l.id) ns)) [
  | inl there ↦ ap (λ (k : Load). k.num_cores) (charged_listed j wakes now ns l there)
  | inr off ↦ ap (λ (k : Load). k.num_cores) (charged_unlisted j wakes now ns l off)
]

charged-IsSound :
    (j : Job) (wakes : Bool) (now : ℤ) (ns : List ℤ) (l : Load)
    → pos 0 ≤ℤ j.cores
    → (contains (pos l.id) ns ≡ true → l.cores_in_use +ℤ j.cores ≤ℤ l.num_cores)
    → IsSound l
    → IsSound (charged j wakes now ns l)
charged-IsSound j wakes now ns l c room s = elim (Bool-cases (contains (pos l.id) ns)) [
  | inl there ↦ subst IsSound (sym (charged_listed j wakes now ns l there)) (record {
    accounted = ap (λ n. n +ℤ j.cores) s.accounted ∙ sym (sum_cores-append l.jobs _);
    nonneg = omega (arith, +ℤ_parts l.cores_in_use j.cores, s.nonneg);
    capacity = room there;
  })
  | inr off ↦ subst IsSound (sym (charged_unlisted j wakes now ns l off)) s
]

-- The servers that are listed have room.
abbrev pub RoomIfListed : ℤ → List ℤ → Load → Type 0
RoomIfListed cores ns l = contains (pos l.id) ns ≡ true → l.cores_in_use +ℤ cores ≤ℤ l.num_cores

pub charged-all :
    (j : Job) (wakes : Bool) (now : ℤ) (ns : List ℤ) (ls : List Load)
    → pos 0 ≤ℤ j.cores
    → All (RoomIfListed j.cores ns) ls
    → All IsSound ls
    → All IsSound (map (charged j wakes now ns) ls)
charged-all j wakes now ns [] c room s = tt
charged-all j wakes now ns (l ∷ ls) c (room, rooms) (s, ss) =
    (charged-IsSound j wakes now ns l c room s, charged-all j wakes now ns ls c rooms ss)

pub suits_room :
    (mem cores : ℤ) (s : Server) → suits mem cores s ≡ true → s.cores_in_use +ℤ cores ≤ℤ s.num_cores
suits_room mem cores s f =
    ground (arith, +ℤ_parts s.cores_in_use cores, -ℤ_parts s.num_cores s.cores_in_use)

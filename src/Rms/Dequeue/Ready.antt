-- ===== src/Rms/Dequeue/Ready.antt =====
-- The state between two steps of the scheduler, and one attempt to start a job.
use mathlib.Core.Path.{subst}
use cplusplus_projects.Common.{
  ◌≡◌, ◌≢◌, sym, ap, ◌∙◌, Bool, true, List, [], ◌∷◌, map, ℤ, pos, ◌≤ℤ◌, ok, All, leb, leb→le,
  length, length-map,
}
use cplusplus_projects.Rms.State.{Job, Server, Client, Rms, lookup_client}
use cplusplus_projects.Rms.Search.{Found, search_servers}
use cplusplus_projects.Rms.Search.Picks.{count_suits}
use cplusplus_projects.Rms.Search.Outcome.{HasServers, search_servers_lem, Picks-Placed}
use cplusplus_projects.Rms.Connect.{init_server_connection}
use cplusplus_projects.Rms.Connect.Load.{Load, load_of, loads}
use cplusplus_projects.Rms.Connect.Frame.{Frame, init_server_connection-Frame}
use cplusplus_projects.Rms.Connect.Total.{init_server_connection_total}
use cplusplus_projects.Rms.Connect.Capacity.{
  IsSound, charged, charged-num_cores, init_server_connection-charge,
}
use cplusplus_projects.Rms.Estimate.Sure.{IsWide, AllWide, IsWide-map, AllWide-each}
use cplusplus_projects.Rms.Connect.Place.{Placed-HasRoom, connection-IsSound}

-- The client of a waiting job is registered, with the job's nodes and no server yet.
abbrev pub IsWaiting : List Client → Job → Type 0
IsWaiting cs j =
    (c : Client) × (lookup_client cs j.client_address ≡ ok c)
    × (c.server_nmb ≡ [])
    × (c.nodes ≡ j.nodes)
    × (pos 0 ≤ℤ j.cores)

-- No two jobs are of one client.
abbrev pub HasOwners : List Job → Type 0
HasOwners [] = Unit
HasOwners (j ∷ js) = All (λ k. j.client_address ≢ k.client_address) js × HasOwners js

-- The servers are in order and none is overcommitted, and the jobs of `q` wait.
pub record Queued (r : Rms) (q : List Job) : Type 0 where
  pub has_servers : HasServers r
  pub sound : All IsSound (loads r.servers)
  pub waiting : All (IsWaiting r.clients) q
  pub owners : HasOwners q

-- Besides, none of the jobs needs more cores than a server has.
pub record Ready (r : Rms) (q : List Job) : Type 0 where
  pub has_servers : HasServers r
  pub sound : All IsSound (loads r.servers)
  pub waiting : All (IsWaiting r.clients) q
  pub owners : HasOwners q
  pub wide : AllWide (loads r.servers) q

pub Ready-Queued : (r : Rms) (q : List Job) → Ready r q → Queued r q
Ready-Queued r q h = record {
  has_servers = h.has_servers;
  sound = h.sound;
  waiting = h.waiting;
  owners = h.owners;
}

pub Queued-Ready : (r : Rms) (q : List Job) → Queued r q → AllWide (loads r.servers) q → Ready r q
Queued-Ready r q h a = record {
  has_servers = h.has_servers;
  sound = h.sound;
  waiting = h.waiting;
  owners = h.owners;
  wide = a;
}

-- As many servers suit the job as it needs nodes.
abbrev pub fits : Rms → Job → Bool
fits r j = leb j.nodes (count_suits j.need_memory j.cores r.servers)

abbrev pub found_at : Rms → Job → List ℤ → Found
found_at r j ns = record { numbers = ns; found = fits r j; servers = r.servers }

-- The state after a job was started.
pub record Started (r : Rms) (j : Job) (p : Rms) : Type 0 where
  pub has_servers : HasServers p
  pub sound : All IsSound (loads p.servers)
  pub frame : Frame j.client_address r p
  pub wide : (c : ℤ) → All (IsWide c) (loads r.servers) → All (IsWide c) (loads p.servers)

length-loads :
    (xs ys : List Server) (f : Load → Load) → loads ys ≡ map f (loads xs) → length ys ≡ length xs
length-loads xs ys f e =
    sym (length-map load_of ys) ∙ ap length e ∙ length-map f (loads xs) ∙ length-map load_of xs

-- The search of an attempt returns, and finds servers exactly when the job fits. Then the job is
-- started without a fault.
pub attempt :
    (r : Rms) (j : Job)
    → HasServers r
    → All IsSound (loads r.servers)
    → IsWaiting r.clients j
    → (ns : List ℤ) × (search_servers r j.nodes j.need_memory j.cores true ≡ ok (found_at r j ns))
      × (fits r j ≡ true → (p : Rms) × (init_server_connection r ns j ≡ ok p) × Started r j p)
attempt r j h sound (c, there, fresh, nodes, cores) =
    let (ns, e, size, greedy) = search_servers_lem r j.nodes j.need_memory j.cores true h cores in
    (
      ns,
      e,
      λ enough.
          let picks = greedy (leb→le _ _ enough) in
          let (d, a) = Picks-Placed j.need_memory j.cores r.servers ns picks in
          let (p, u) =
            init_server_connection_total r ns j c
              (Placed-HasRoom j.need_memory j.cores r.servers ns h.numbered a) d there fresh
              (size ∙ sym nodes) in
          let (sound', h') = connection-IsSound r p ns j h.numbered cores picks sound u in
          let (wakes, same, h2) = init_server_connection-charge r p ns j u h.numbered d in
          let frame = init_server_connection-Frame r p ns j u in
          (
            p,
            u,
            record {
              has_servers = record {
                numbered = h';
                counted =
                    frame.same_count ∙ h.counted ∙ sym (length-loads r.servers p.servers _ same);
              };
              sound = sound';
              frame = frame;
              wide = λ c a. subst (All (IsWide c)) (sym same) (
                  IsWide-map (charged j wakes r.now ns) (charged-num_cores j wakes r.now ns) c
                    (loads r.servers) a);
            },
          ),
    )

IsWaiting-Frame :
    (j : Job) (r p : Rms) (q : List Job)
    → Frame j.client_address r p
    → All (λ k. j.client_address ≢ k.client_address) q
    → All (IsWaiting r.clients) q
    → All (IsWaiting p.clients) q
IsWaiting-Frame j r p [] f ne w = tt
IsWaiting-Frame j r p (k ∷ q) f (ne, nes) ((c, e, fresh, nodes, cores), w) =
    ((c, f.others k.client_address ne ∙ e, fresh, nodes, cores), IsWaiting-Frame j r p q f nes w)

-- After a start the other jobs wait.
pub Started-Queued :
    (r p : Rms) (j : Job) (q : List Job)
    → Started r j p
    → All (λ k. j.client_address ≢ k.client_address) q
    → All (IsWaiting r.clients) q
    → HasOwners q
    → Queued p q
Started-Queued r p j q s ne w o = record {
  has_servers = s.has_servers;
  sound = s.sound;
  waiting = IsWaiting-Frame j r p q s.frame ne w;
  owners = o;
}

-- They are ready when none needs more cores than a server has.
pub Started-Ready :
    (r p : Rms) (j : Job) (q : List Job)
    → Started r j p
    → All (λ k. j.client_address ≢ k.client_address) q
    → All (IsWaiting r.clients) q
    → HasOwners q
    → AllWide (loads r.servers) q
    → Ready p q
Started-Ready r p j q s ne w o a =
    Queued-Ready p q (Started-Queued r p j q s ne w o)
      (AllWide-each (loads r.servers) (loads p.servers) q s.wide a)

-- The servers do not depend on the queue.
pub HasServers-queue :
    (r : Rms) (q : List Job) → HasServers r → HasServers (record r { job_queue = q })
HasServers-queue r q h = record { numbered = h.numbered; counted = h.counted }

pub Queued-queue : (r : Rms) (q : List Job) → Queued r q → Queued (record r { job_queue = q }) q
Queued-queue r q h = record {
  has_servers = HasServers-queue r q h.has_servers;
  sound = h.sound;
  waiting = h.waiting;
  owners = h.owners;
}

pub Ready-queue : (r : Rms) (q : List Job) → Ready r q → Ready (record r { job_queue = q }) q
Ready-queue r q h = Queued-Ready _ q (Queued-queue r q (Ready-Queued r q h)) h.wide

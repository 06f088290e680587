-- ===== src/Rms/Connect/Charge.antt =====
-- initServerConnection and sendClientRequests seen through the loads of the servers.
use cplusplus_projects.Common.{
  ℕ, ◌≡◌, ◌≢◌, refl, sym, ap, ◌∙◌, Bool, true, false, ◌||◌, List, [], ◌∷◌, ◌++◌, map, ℤ, pos, ◌+ℤ◌,
  ◌==ℤ◌, if◌then◌else◌, Result, ok, fault, Fault, arith, Bool-cases, inl, inr, ==ℤ→eq, >>=-eq-ok,
  ok_inj, All, ltb_ℤ,
}
use cplusplus_projects.Rms.State.{
  Job, Server, Rms, running, lookup_server, update_server, lookup_client, update_client,
  set_reserved, add_cores_in_use, is_asleep, is_idle,
}
use cplusplus_projects.Rms.Numbered.{Numbered}
use cplusplus_projects.Rms.Search.Outcome.{Distinct}
use cplusplus_projects.Rms.Connect.{
  entries, settle, set_state, reserve_cores, add_job, add_server_jobs, start_on, start_servers,
  send_client_requests,
}
use cplusplus_projects.Rms.Connect.Load.{
  Load, loads, at_number, update_server-Numbered, loads-update, loads-update_same,
}

abbrev pub contains : ℤ → List ℤ → Bool
contains n [] = false
contains n (m ∷ ms) = (n ==ℤ m) || contains n ms

-- `g` at the loads whose numbers are listed.
abbrev pub charge : (ℤ → Load → Load) → List ℤ → Load → Load
charge g ns l = if contains (pos l.id) ns then g (pos l.id) l else l

abbrev pub charge_cores : ℤ → ℤ → Load → Load
charge_cores cores n l = record l { cores_in_use = l.cores_in_use +ℤ cores }

abbrev pub charge_job : Job → ℤ → Load → Load
charge_job j n l = record l { jobs = l.jobs ++ record j { server_index = n } ∷ [] }

contains-false : (n : ℤ) (ns : List ℤ) → All (λ m. n ≢ m) ns → contains n ns ≡ false
contains-false n [] h = refl
contains-false n (m ∷ ms) h = elim (Bool-cases (n ==ℤ m)) [
  | inl same ↦ absurd (h.0 (==ℤ→eq n m same))
  | inr other ↦ rw other (contains-false n ms h.1)
]

module _ (g : ℤ → Load → Load) (keeps : (n : ℤ) (l : Load) → (g n l).id ≡ l.id) where
  charge-at_number :
      (n : ℤ) (ns : List ℤ) (l : Load)
      → All (λ m. n ≢ m) ns
      → charge g ns (at_number n (g n) l) ≡ charge g (n ∷ ns) l
  charge-at_number n ns l h = elim (Bool-cases (pos l.id ==ℤ n)) [
    | inl here ↦
        let same : pos l.id ≡ n = ==ℤ→eq (pos l.id) n here in
        ground (arith, keeps n l, contains-false n ns h, same, here)
    | inr off ↦ rw off refl
  ]

  charge-loads :
      (n : ℤ) (ns : List ℤ) (ls : List Load)
      → All (λ m. n ≢ m) ns
      → map (charge g ns) (map (at_number n (g n)) ls) ≡ map (charge g (n ∷ ns)) ls
  charge-loads n ns [] h = refl
  charge-loads n ns (l ∷ ls) h =
      ap (λ x. x ∷ map (charge g ns) (map (at_number n (g n)) ls)) (charge-at_number n ns l h)
      ∙ ap (◌∷◌ (charge g (n ∷ ns) l)) (charge-loads n ns ls h)

map-charge_nil : (g : ℤ → Load → Load) (ls : List Load) → map (charge g []) ls ≡ ls
map-charge_nil g [] = refl
map-charge_nil g (l ∷ ls) = ap (◌∷◌ l) (map-charge_nil g ls)

-- The second loop adds the job to exactly the listed servers.
pub add_server_jobs-charge :
    (j : Job) (k : ℕ) (ns : List ℤ) (xs ys : List Server)
    → add_server_jobs j ns xs ≡ ok ys
    → Numbered k xs
    → Distinct ns
    → (loads ys ≡ map (charge (charge_job j) ns) (loads xs)) × Numbered k ys
unfolding add_server_jobs
add_server_jobs-charge j k [] xs ys e h d =
    (ap loads (sym (ok_inj e)) ∙ sym (map-charge_nil (charge_job j) (loads xs)), rw (← ok_inj e) h)
add_server_jobs-charge j k (n ∷ ns) xs ys e h (ne, d) =
    let (zs, u, v) = >>=-eq-ok (update_server xs n (add_job (record j { server_index = n }))) _ e in
    let (same, h') =
      add_server_jobs-charge j k ns zs ys v
        (update_server-Numbered (add_job (record j { server_index = n })) (λ s. refl) k xs zs n u h)
        d in
    (
      same
          ∙ ap (map (charge (charge_job j) ns)) (
              loads-update (add_job (record j { server_index = n })) (charge_job j n) (λ s. refl) k
                xs zs n u h)
          ∙ charge-loads (charge_job j) (λ m l. refl) n ns (loads xs) ne,
      h',
    )

-- Waking a server up or starting an idle one changes no load.
settle-loads :
    (j : Job) (k : ℕ) (n : ℤ) (s : Server) (r r' : Rms) (w w' : Bool)
    → settle j n s r w ≡ ok (r', w')
    → Numbered k r.servers
    → (loads r'.servers ≡ loads r.servers) × Numbered k r'.servers
unfolding settle
settle-loads j k n s r r' w w' e h = elim (Bool-cases (is_asleep s.state)) [
  | inl asleep ↦
      let (cs, u, v) = >>=-eq-ok (update_client r.clients j.client_address _) _ (rw asleep at e) in
      let (xs, u', v') = >>=-eq-ok (update_server r.servers n (set_reserved true)) _ v in
      let same : xs ≡ r'.servers = ap (λ (p : Rms × Bool). p.0.servers) (ok_inj v') in
      rw (← same) (
        loads-update_same (set_reserved true) r.servers xs n (λ t. refl) u',
        update_server-Numbered (set_reserved true) (λ t. refl) k r.servers xs n u' h,
      )
  | inr awake ↦ elim (Bool-cases (is_idle s.state)) [
    | inl idles ↦
        let (xs, u', v') =
          >>=-eq-ok (update_server r.servers n (set_state running)) _ (rw (awake, idles) at e) in
        let same : xs ≡ r'.servers = ap (λ (p : Rms × Bool). p.0.servers) (ok_inj v') in
        rw (← same) (
          loads-update_same (set_state running) r.servers xs n (λ t. refl) u',
          update_server-Numbered (set_state running) (λ t. refl) k r.servers xs n u' h,
        )
    | inr runs ↦
        let same : r.servers ≡ r'.servers =
          ap (λ (p : Rms × Bool). p.0.servers) (ok_inj (rw (awake, runs) at e)) in
        rw (← same) (refl, h)
  ]
]

guarded {ℓ} :
    {A : Type ℓ} (b : Bool) (x : Fault) (m : Result A) {a : A}
    → (if b then fault x else m) ≡ ok a
    → m ≡ ok a
guarded true x m e = cc
guarded false x m e = e

-- The first loop takes the job's cores on exactly the listed servers.
pub reserve_cores-charge :
    (j : Job) (k : ℕ) (ns : List ℤ) (r r' : Rms) (w w' : Bool)
    → reserve_cores j ns r w ≡ ok (r', w')
    → Numbered k r.servers
    → Distinct ns
    → (loads r'.servers ≡ map (charge (charge_cores j.cores) ns) (loads r.servers))
      × Numbered k r'.servers
unfolding reserve_cores
reserve_cores-charge j k [] r r' w w' e h d =
    let same : r.servers ≡ r'.servers = ap (λ (p : Rms × Bool). p.0.servers) (ok_inj e) in
    rw (← same) (sym (map-charge_nil (charge_cores j.cores) (loads r.servers)), h)
reserve_cores-charge j k (n ∷ ns) r r' w w' e h (ne, d) =
    let (xs, u, v) = >>=-eq-ok (update_server r.servers n (add_cores_in_use j.cores)) _ e in
    let (s, u', v') = >>=-eq-ok (lookup_server xs n) _ v in
    let (q, u2, v2) =
      >>=-eq-ok
        (if ltb_ℤ s.num_cores s.cores_in_use
          then fault Fault.too_many_cores
          else settle j n s (record r { servers = xs }) w)
        _ v' in
    let h' = update_server-Numbered (add_cores_in_use j.cores) (λ t. refl) k r.servers xs n u h in
    let (calm, h2) =
      settle-loads j k n s (record r { servers = xs }) q.0 w q.1 (guarded _ _ _ u2) h' in
    let (same, h3) = reserve_cores-charge j k ns q.0 r' q.1 w' v2 h2 d in
    (
      same
          ∙ ap (map (charge (charge_cores j.cores) ns)) (
              calm
              ∙ loads-update (add_cores_in_use j.cores) (charge_cores j.cores n) (λ t. refl) k
                  r.servers xs n u h)
          ∙ charge-loads (charge_cores j.cores) (λ m l. refl) n ns (loads r.servers) ne,
      h3,
    )

start_servers-loads :
    (a k : ℕ) (need comp : ℤ) (ns : List ℤ) (r r' : Rms)
    → start_servers a need comp ns r ≡ ok r'
    → Numbered k r.servers
    → (loads r'.servers ≡ loads r.servers) × Numbered k r'.servers
unfolding start_servers
start_servers-loads a k need comp [] r r' e h =
    let same : r.servers ≡ r'.servers = ap (λ (p : Rms). p.servers) (ok_inj e) in
    rw (← same) (refl, h)
start_servers-loads a k need comp (n ∷ ns) r r' e h =
    let (xs, u, v) = >>=-eq-ok (update_server r.servers n (start_on need comp)) _ e in
    let (same, h') =
      start_servers-loads a k need comp ns _ r' v
        (update_server-Numbered (start_on need comp) (λ t. refl) k r.servers xs n u h) in
    (same ∙ loads-update_same (start_on need comp) r.servers xs n (λ t. refl) u, h')

-- Sending the requests of a client changes no load.
pub send_client_requests-loads :
    (k a : ℕ) (r r' : Rms)
    → send_client_requests r a ≡ ok r'
    → Numbered k r.servers
    → (loads r'.servers ≡ loads r.servers) × Numbered k r'.servers
unfolding send_client_requests
send_client_requests-loads k a r r' e h =
    let (c, u, v) = >>=-eq-ok (lookup_client r.clients a) _ e in
    let (ns, u', v') = >>=-eq-ok (entries c.nodes c.server_nmb) _ v in
    start_servers-loads a k _ _ ns _ r' v' h

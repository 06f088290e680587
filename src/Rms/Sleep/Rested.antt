-- ===== src/Rms/Sleep/Rested.antt =====
-- Without a job in the queue, checkServers leaves no idle server awake.
use mathlib.Core.Path.{subst}
use cplusplus_projects.Common.{
  ℕ, zero, suc, ◌+◌, ◌<◌, ◌==◌, ◌≡◌, refl, sym, ap, ◌∙◌, inl, inr, Bool, true, false, ◌&&◌, not,
  List, [], ◌∷◌, some, pos, ltb_ℤ, if◌then◌else◌, Result, ok, arith, Bool-cases, ok_inj, some_inj,
  length, get_elem?, get_elem?-some, All, ==_iff,
}
use cplusplus_projects.Rms.State.{Server, Rms, lookup_server, is_idle, seconds, Effect, emit}
use cplusplus_projects.Rms.Numbered.{Numbered, lookup_server-get}
use cplusplus_projects.Rms.Search.Outcome.{HasServers}
use cplusplus_projects.Rms.Connect.Load.{loads, update_server_total}
use cplusplus_projects.Rms.Connect.Capacity.{IsSound}
use cplusplus_projects.Rms.Estimate.Sure.{AllWide}
use cplusplus_projects.Rms.Sleep.{
  suspended, suspend, suspend_unless_due, may_suspend, check_from, check_servers,
}
use cplusplus_projects.Rms.Sleep.Suspended.{
  MaySleep, Pairs, Checked, Sure, Sure-Checked, check_one-Returns, length-servers,
  check_servers-Checked,
}

-- The server is idle and not reserved.
abbrev pub is_spare : Server → Bool
is_spare s = is_idle s.state && not s.reserved

MaySleep-spare : (s t : Server) → MaySleep s t → is_spare s ≡ false → is_spare t ≡ false
MaySleep-spare s t (inl e) h = subst (λ u. is_spare u ≡ false) (sym e) h
MaySleep-spare s t (inr p) h = subst (λ u. is_spare u ≡ false) (sym p.2) refl

Pairs-get :
    (xs ys : List Server) (k : ℕ) (t : Server)
    → Pairs MaySleep xs ys
    → get_elem? ys k ≡ some t
    → (s : Server) × (get_elem? xs k ≡ some s) × MaySleep s t
Pairs-get [] [] k t p g = cc
Pairs-get [] (y ∷ ys) k t p g = absurd p
Pairs-get (x ∷ xs) [] k t p g = absurd p
Pairs-get (x ∷ xs) (y ∷ ys) zero t p g = (x, refl, subst (MaySleep x) (some_inj g) p.0)
Pairs-get (x ∷ xs) (y ∷ ys) (suc k) t p g = Pairs-get xs ys k t p.1 g

-- No spare server among the first `i`.
abbrev Done : ℕ → Rms → Type 0
Done i q = (k : ℕ) (t : Server) → k < i → get_elem? q.servers k ≡ some t → is_spare t ≡ false

Done-Checked : (i : ℕ) (r q : Rms) → Checked r q → Done i r → Done i q
Done-Checked i r q c d k t l g =
    let (s, g', may) = Pairs-get r.servers q.servers k t c.pairs g in
    MaySleep-spare s t may (d k s l g')

suspend_lem :
    (r q : Rms) (i : ℕ) (s : Server)
    → lookup_server r.servers (pos i) ≡ ok s
    → suspend r i ≡ ok q
    → lookup_server q.servers (pos i) ≡ ok (suspended s)
unfolding suspend
suspend_lem r q i s e u =
    let (ys, v, there) = update_server_total suspended (λ x. refl) r.servers (pos i) s e in
    let same : emit (Effect.sleep (pos i) 2) (record r { servers = ys }) ≡ q = ok_inj (rw v at u) in
    subst (λ (p : Rms). lookup_server p.servers (pos i) ≡ ok (suspended s)) same there

unfoldable check_one : Rms → ℕ → Server → Result Rms
check_one r i s = if may_suspend r s then suspend_unless_due r.job_queue r i else ok r

check_one_lem :
    (r q : Rms) (i : ℕ) (s t : Server)
    → r.job_queue ≡ []
    → ltb_ℤ (seconds 20) r.now ≡ true
    → lookup_server r.servers (pos i) ≡ ok s
    → check_one r i s ≡ ok q
    → lookup_server q.servers (pos i) ≡ ok t
    → is_spare t ≡ false
unfolding check_one suspend_unless_due
check_one_lem r q i s t empty late e u f = elim (Bool-cases (may_suspend r s)) [
  | inl may ↦
      let u' : suspend r i ≡ ok q =
        ap (λ js. suspend_unless_due js r i) (sym empty) ∙ rw may at u in
      let same : suspended s ≡ t = ok_inj (sym (suspend_lem r q i s e u') ∙ f) in
      subst (λ v. is_spare v ≡ false) same refl
  | inr off ↦
      let stays : r ≡ q = ok_inj (rw off at u) in
      let same : s ≡ t =
        ok_inj (sym e ∙ ap (λ (p : Rms). lookup_server p.servers (pos i)) stays ∙ f) in
      subst (λ v. is_spare v ≡ false) same (ground (arith, off, late))
]

check_from-Done :
    (n i : ℕ) (r p : Rms)
    → Sure r
    → Numbered 0 r.servers
    → i + n ≡ length r.servers
    → r.job_queue ≡ []
    → ltb_ℤ (seconds 20) r.now ≡ true
    → Done i r
    → check_from n i r ≡ ok p
    → Done (i + n) p
unfolding check_from check_one
check_from-Done zero i r p sure h l empty late d u k t below g =
    let same : r ≡ p = ok_inj u in
    d k t (omega (arith, below)) (ap (λ (q : Rms). get_elem? q.servers k) same ∙ g)
check_from-Done (suc n) i r p sure h l empty late d u k t below g =
    let (s, there) = get_elem?-some r.servers i (omega arith) in
    let e = lookup_server-get 0 i i r.servers s h (omega arith) there in
    let (q, v, c) = check_one-Returns r i s sure e in
    let rest : check_from n (suc i) q ≡ ok p = rw (e, v) at u in
    let h' = c.numbered h in
    let size = length-servers r.servers q.servers c.same_loads in
    let before = Done-Checked i r q c d in
    let here : Done (suc i) q = λ k' t' l' g'. elim (Bool-cases (k' == i)) [
      | inl at_i ↦
          let same : k' ≡ i = (==_iff k' i).0 at_i in
          let f =
            lookup_server-get 0 i i q.servers t' h' (omega arith)
              (ap (get_elem? q.servers) (sym same) ∙ g') in
          check_one_lem r q i s t' empty late e v f
      | inr other ↦ before k' t' (ground (arith, l', other)) g'
    ] in
    check_from-Done n (suc i) q p (Sure-Checked r q c sure) h' (omega (arith, l, size))
      (c.same_queue ∙ empty) (ap (ltb_ℤ (seconds 20)) c.same_now ∙ late) here rest k t
      (omega (arith, below)) g

All-get_elem :
    (P : Server → Type 0) (xs : List Server)
    → ((k : ℕ) (t : Server) → k < length xs → get_elem? xs k ≡ some t → P t)
    → All P xs
All-get_elem P [] f = tt
All-get_elem P (x ∷ xs) f =
    (f 0 x (omega arith) refl, All-get_elem P xs (λ k t l g. f (suc k) t (omega (arith, l)) g))

-- With the servers numbered from 0 on and counted, the cores in use those of the jobs, and no
-- server with fewer cores than a job of the queue needs, the check returns. It comes to
-- suspensions, one after the other, each of a server that is idle and not reserved at that moment,
-- after more than 20 seconds of the simulation, and while the queue is empty or the estimated start
-- of its first job is more than 50 seconds after the current time. So every server stays as it is,
-- or it was idle and not reserved and is now suspended and reserved; the cores in use and the jobs
-- of every server, the queue and the clients are as before. With an empty queue and after more than
-- 20 seconds, no server is left that is idle and not reserved.
pub check_servers-Rested :
    (r : Rms)
    → HasServers r
    → All IsSound (loads r.servers)
    → AllWide (loads r.servers) r.job_queue
    → (q : Rms) × (check_servers r ≡ ok q)
      × Checked r q
      × (r.job_queue ≡ []
          → ltb_ℤ (seconds 20) r.now ≡ true
          → All (λ s. is_spare s ≡ false) q.servers)
unfolding check_servers
check_servers-Rested r h sound wide =
    let (q, e, c) = check_servers-Checked r h sound wide in
    (q, e, c, λ empty late. All-get_elem _ q.servers (spare q e c empty late))
  where
    spare :
        (q : Rms)
        → check_servers r ≡ ok q
        → Checked r q
        → r.job_queue ≡ []
        → ltb_ℤ (seconds 20) r.now ≡ true
        → (k : ℕ) (t : Server) → k < length q.servers
        → get_elem? q.servers k ≡ some t
        → is_spare t ≡ false
    spare q e c empty late k t l g =
        check_from-Done r.num_servers 0 r q (record { sound = sound; wide = wide }) h.numbered
          (omega (arith, h.counted)) empty late (λ k' t' l' g'. absurd (omega (arith, l'))) e k t
          (omega (arith, l, h.counted, length-servers r.servers q.servers c.same_loads)) g

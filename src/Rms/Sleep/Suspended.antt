-- ===== src/Rms/Sleep/Suspended.antt =====
-- Which servers checkServers changes, and how.
use mathlib.Core.Path.{subst}
use cplusplus_projects.Common.{
  All, ℕ, zero, suc, ◌+◌, ◌≡◌, refl, sym, ap, ◌∙◌, ◌⊎◌, inl, inr, true, false, List, [], ◌∷◌, ℤ,
  pos, ◌-ℤ◌, ◌==ℤ◌, ltb_ℤ, if◌then◌else◌, Result, ok, arith, Bool-cases, >>=-eq-ok, ok_inj, length,
  length-map, get_elem?-some,
}
use cplusplus_projects.Rms.State.{
  Job, Server, Rms, lookup_server, update_server, is_idle, seconds, Effect, emit,
}
use cplusplus_projects.Rms.Numbered.{Numbered, lookup_server-get}
use cplusplus_projects.Rms.Search.Outcome.{HasServers}
use cplusplus_projects.Rms.Connect.Load.{
  load_of, loads, loads-update_same, update_server_total, update_server-Numbered,
}
use cplusplus_projects.Rms.Connect.Capacity.{IsSound}
use cplusplus_projects.Rms.Estimate.{get_estimated_start_time}
use cplusplus_projects.Rms.Estimate.Sure.{AllWide, estimate_total}
use cplusplus_projects.Rms.Estimate.Bound.{get_estimated_start_time-cons}
use cplusplus_projects.Rms.Sleep.{
  suspended, suspend, suspend_unless_due, may_suspend, check_from, check_servers,
}

-- A server stays as it is, or it was idle and not reserved and is now suspended.
abbrev pub MaySleep : Server → Server → Type 0
MaySleep s t = (t ≡ s) ⊎ ((is_idle s.state ≡ true) × (s.reserved ≡ false) × (t ≡ suspended s))

abbrev pub Pairs : (Server → Server → Type 0) → List Server → List Server → Type 0
Pairs R [] [] = Unit
Pairs R [] (y ∷ ys) = ⊥
Pairs R (x ∷ xs) [] = ⊥
Pairs R (x ∷ xs) (y ∷ ys) = R x y × Pairs R xs ys

Pairs-refl : (xs : List Server) → Pairs MaySleep xs xs
Pairs-refl [] = tt
Pairs-refl (x ∷ xs) = (inl refl, Pairs-refl xs)

-- A suspended server is not idle, so it is left alone from then on.
MaySleep-trans : (s t u : Server) → MaySleep s t → MaySleep t u → MaySleep s u
MaySleep-trans s t u (inl e) q = ground (arith, q)
MaySleep-trans s t u (inr p) (inl e) = inr (p.0, p.1, e ∙ p.2)
MaySleep-trans s t u (inr p) (inr q) = absurd (ground arith)

Pairs-trans :
    (xs ys zs : List Server) → Pairs MaySleep xs ys → Pairs MaySleep ys zs → Pairs MaySleep xs zs
Pairs-trans [] [] [] p q = tt
Pairs-trans [] [] (z ∷ zs) p q = q
Pairs-trans [] (y ∷ ys) zs p q = absurd p
Pairs-trans (x ∷ xs) [] zs p q = absurd p
Pairs-trans (x ∷ xs) (y ∷ ys) [] p q = q
Pairs-trans (x ∷ xs) (y ∷ ys) (z ∷ zs) p q =
    (MaySleep-trans x y z p.0 q.0, Pairs-trans xs ys zs p.1 q.1)

update-Pairs :
    (xs ys : List Server) (n : ℤ) (s : Server)
    → lookup_server xs n ≡ ok s
    → is_idle s.state ≡ true
    → s.reserved ≡ false
    → update_server xs n suspended ≡ ok ys
    → Pairs MaySleep xs ys
unfolding lookup_server update_server
update-Pairs [] ys n s e i r u = cc
update-Pairs (x ∷ xs) ys n s e i r u = elim (Bool-cases (pos x.id ==ℤ n)) [
  | inl here ↦
      let same : x ≡ s = ok_inj (rw here at e) in
      let result : suspended x ∷ xs ≡ ys = ok_inj (rw here at u) in
      rw (← result) (inr (rw same i, rw same r, refl), Pairs-refl xs)
  | inr on ↦
      let (zs, u', v) = >>=-eq-ok (update_server xs n suspended) _ (rw on at u) in
      let result : x ∷ zs ≡ ys = ok_inj v in
      rw (← result) (inl refl, update-Pairs xs zs n s (rw on at e) i r u')
]

-- No job waits, or the first one is estimated to start in more than 50 seconds.
abbrev pub IsFar : Rms → Type 0
IsFar r =
    (r.job_queue ≡ [])
    ⊎ ((t : ℤ) × (get_estimated_start_time r ≡ ok t) × (ltb_ℤ (seconds 50) (t -ℤ r.now) ≡ true))

-- Server `i` is suspended, when that is allowed: it is idle and not reserved, the simulation has run
-- for more than 20 seconds, and no job needs it soon.
pub record Suspension (r p : Rms) : Type 0 where
  pub number : ℕ
  pub server : Server
  pub found : lookup_server r.servers (pos number) ≡ ok server
  pub idles : is_idle server.state ≡ true
  pub unreserved : server.reserved ≡ false
  pub late : ltb_ℤ (seconds 20) r.now ≡ true
  pub far : IsFar r
  pub result : suspend r number ≡ ok p

-- Such suspensions, one after the other.
pub data Suspensions : Rms → Rms → Type 0 where
  no_more : {r : Rms} → Suspensions r r
  and_then : {r p q : Rms} → Suspensions r p → Suspension p q → Suspensions r q

Suspensions-trans : {r p q : Rms} → Suspensions r p → Suspensions p q → Suspensions r q
Suspensions-trans s no_more = s
Suspensions-trans s (and_then t one) = and_then (Suspensions-trans s t) one

-- What one call of `suspend`, or none, achieves.
pub record Checked (r q : Rms) : Type 0 where
  pub steps : Suspensions r q
  pub pairs : Pairs MaySleep r.servers q.servers
  pub same_loads : loads q.servers ≡ loads r.servers
  pub same_queue : q.job_queue ≡ r.job_queue
  pub same_clients : q.clients ≡ r.clients
  pub same_count : q.num_servers ≡ r.num_servers
  pub same_now : q.now ≡ r.now
  pub numbered : Numbered 0 r.servers → Numbered 0 q.servers

Checked-refl : (r : Rms) → Checked r r
Checked-refl r = record {
  steps = no_more;
  pairs = Pairs-refl r.servers;
  same_loads = refl;
  same_queue = refl;
  same_clients = refl;
  same_count = refl;
  same_now = refl;
  numbered = λ h. h;
}

Checked-trans : (r q p : Rms) → Checked r q → Checked q p → Checked r p
Checked-trans r q p a b = record {
  steps = Suspensions-trans a.steps b.steps;
  pairs = Pairs-trans r.servers q.servers p.servers a.pairs b.pairs;
  same_loads = b.same_loads ∙ a.same_loads;
  same_queue = b.same_queue ∙ a.same_queue;
  same_clients = b.same_clients ∙ a.same_clients;
  same_count = b.same_count ∙ a.same_count;
  same_now = b.same_now ∙ a.same_now;
  numbered = λ h. b.numbered (a.numbered h);
}

-- The outcome of a step that returns.
abbrev Returns : Rms → Result Rms → Type 0
Returns r m = (q : Rms) × (m ≡ ok q) × Checked r q

-- The estimate meets no freed message.
pub record Sure (r : Rms) : Type 0 where
  pub sound : All IsSound (loads r.servers)
  pub wide : AllWide (loads r.servers) r.job_queue

pub Sure-Checked : (r q : Rms) → Checked r q → Sure r → Sure q
Sure-Checked r q c h = record {
  sound = subst (All IsSound) (sym c.same_loads) h.sound;
  wide =
      subst (AllWide (loads q.servers)) (sym c.same_queue)
        (subst (λ ls. AllWide ls r.job_queue) (sym c.same_loads) h.wide);
}

suspend-Returns :
    (r : Rms) (i : ℕ) (s : Server)
    → lookup_server r.servers (pos i) ≡ ok s
    → may_suspend r s ≡ true
    → IsFar r
    → Returns r (suspend r i)
unfolding suspend
suspend-Returns r i s e may far =
    let (xs, u, there) = update_server_total suspended (λ x. refl) r.servers (pos i) s e in
    let p = emit (Effect.sleep (pos i) 2) (record r { servers = xs }) in
    let returns : suspend r i ≡ ok p = rw u refl in
    (
      p,
      returns,
      record {
        steps = and_then no_more (record {
          number = i;
          server = s;
          found = e;
          idles = ground arith;
          unreserved = ground arith;
          late = ground arith;
          far = far;
          result = returns;
        });
        pairs = update-Pairs r.servers xs (pos i) s e (ground arith) (ground arith) u;
        same_loads = loads-update_same suspended r.servers xs (pos i) (λ x. refl) u;
        same_queue = refl;
        same_clients = refl;
        same_count = refl;
        same_now = refl;
        numbered = update_server-Numbered suspended (λ x. refl) 0 r.servers xs (pos i) u;
      },
    )

suspend_unless_due-Returns :
    (js : List Job) (r : Rms) (i : ℕ) (s : Server)
    → Sure r
    → r.job_queue ≡ js
    → lookup_server r.servers (pos i) ≡ ok s
    → may_suspend r s ≡ true
    → Returns r (suspend_unless_due js r i)
unfolding suspend_unless_due
suspend_unless_due-Returns [] r i s h j e may = suspend-Returns r i s e may (inl j)
suspend_unless_due-Returns (j ∷ js) r i s h q e may =
    let (t, u) =
      estimate_total j.nodes j.cores r.servers h.sound
        (subst (AllWide (loads r.servers)) q h.wide).0 in
    let v : get_estimated_start_time r ≡ ok t = get_estimated_start_time-cons r j js q ∙ u in
    elim (Bool-cases (ltb_ℤ (seconds 50) (t -ℤ r.now))) [
      | inl far ↦ rw (v, far) (suspend-Returns r i s e may (inr (t, v, far)))
      | inr due ↦ (r, rw (v, due) refl, Checked-refl r)
    ]

pub check_one-Returns :
    (r : Rms) (i : ℕ) (s : Server)
    → Sure r
    → lookup_server r.servers (pos i) ≡ ok s
    → Returns r (if may_suspend r s then suspend_unless_due r.job_queue r i else ok r)
check_one-Returns r i s h e = elim (Bool-cases (may_suspend r s)) [
  | inl may ↦ rw may (suspend_unless_due-Returns r.job_queue r i s h refl e may)
  | inr not_now ↦ rw not_now (r, refl, Checked-refl r)
]

pub length-servers : (xs ys : List Server) → loads ys ≡ loads xs → length ys ≡ length xs
length-servers xs ys e = sym (length-map load_of ys) ∙ ap length e ∙ length-map load_of xs

check_from-Returns :
    (n i : ℕ) (r : Rms)
    → Sure r
    → Numbered 0 r.servers
    → i + n ≡ length r.servers
    → Returns r (check_from n i r)
unfolding check_from
check_from-Returns zero i r sure h l = (r, refl, Checked-refl r)
check_from-Returns (suc n) i r sure h l =
    let (s, g) = get_elem?-some r.servers i (omega arith) in
    let e = lookup_server-get 0 i i r.servers s h (omega arith) g in
    let (q, u, c) = check_one-Returns r i s sure e in
    let (p, u', c') =
      check_from-Returns n (suc i) q (Sure-Checked r q c sure) (c.numbered h)
        (omega (arith, length-servers r.servers q.servers c.same_loads)) in
    (p, rw (e, u) u', Checked-trans r q p c c')

pub check_servers-Checked :
    (r : Rms)
    → HasServers r
    → All IsSound (loads r.servers)
    → AllWide (loads r.servers) r.job_queue
    → (q : Rms) × (check_servers r ≡ ok q) × Checked r q
unfolding check_servers
check_servers-Checked r h sound wide =
    check_from-Returns r.num_servers 0 r (record { sound = sound; wide = wide }) h.numbered
      (omega (arith, h.counted))

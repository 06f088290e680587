-- ===== src/ServerApp/Cores/Marked.antt =====
-- How many cores have which load before and after the loops over the cores.
use mathlib.Core.Path.{subst}
use cplusplus_projects.Common.{
  ℕ, suc, ◌+◌, ◌≤◌, ◌<◌, ◌≡◌, refl, ap, ◌∙◌, ◌+ℤ◌, ◌≤ℤ◌, +ℤ_parts, ltb, ltb_ℤ, ==ℤ→eq, true, false,
  List, [], ◌∷◌, map, ℤ, pos, ◌==ℤ◌, if◌then◌else◌, inl, inr, Bool-cases, arith, count_if,
}
use cplusplus_projects.ServerApp.State.{idle_load}
use cplusplus_projects.ServerApp.Cores.{
  job_load, clamped_load, mark_cpu, allocate_cores, unload_cores, set_loads,
}

-- The cores of a CPU with a load.
abbrev pub count_load : List ℤ → ℤ → ℕ
count_load cs l = count_if (λ c. c ==ℤ l) cs

-- The cores of all CPUs with a load.
abbrev pub count_loads : List (List ℤ) → ℤ → ℕ
count_loads [] l = 0
count_loads (c ∷ cs) l = count_load c l + count_loads cs l

-- Of `need` cores, `n` were found already and `m` are found in the end.
pub record Marked (old new : ℤ) (need n : ℕ) (before after : ℤ → ℕ) (m : ℕ) : Type 0 where
  pub more : n ≤ m
  pub within : m ≤ need
  pub taken : after old + m ≡ before old + n
  pub given : after new + n ≡ before new + m
  pub others : (l : ℤ) → (l ==ℤ old) ≡ false → (l ==ℤ new) ≡ false → after l ≡ before l
  pub enough : m < need → after old ≡ 0

module _ (old new : ℤ) (differ : (old ==ℤ new) ≡ false) where
  -- A core of the old load comes before those that are marked by `rest`.
  hit_first :
      (need n m : ℕ) (c : ℤ) (before after : ℤ → ℕ)
      → (c ==ℤ old) ≡ true
      → Marked old new need (suc n) before after m
      → Marked old new need n
          (λ l. (if c ==ℤ l then 1 else 0) + before l)
          (λ l. (if new ==ℤ l then 1 else 0) + after l)
          m
  hit_first need n m c before after hit r = record {
    more = omega (arith, r.more);
    within = r.within;
    taken = ground (arith, r.taken, hit, differ);
    given = ground (arith, r.given, hit, differ);
    others = λ l e f. ground (arith, r.others l e f, hit, e, f);
    enough = λ h. ground (arith, r.enough h, differ);
  }

  miss_first :
      (need n m : ℕ) (c : ℤ) (before after : ℤ → ℕ)
      → (c ==ℤ old) ≡ false
      → Marked old new need n before after m
      → Marked old new need n
          (λ l. (if c ==ℤ l then 1 else 0) + before l)
          (λ l. (if c ==ℤ l then 1 else 0) + after l)
          m
  miss_first need n m c before after miss r = record {
    more = r.more;
    within = r.within;
    taken = omega (arith, r.taken);
    given = omega (arith, r.given);
    others = λ l e f. omega (arith, r.others l e f);
    enough = λ h. ground (arith, r.enough h, miss);
  }

  -- Nothing is marked, as enough is or nothing is left.
  Marked-same :
      (need n : ℕ) (before : ℤ → ℕ)
      → n ≤ need
      → (n < need → before old ≡ 0)
      → Marked old new need n before before n
  Marked-same need n before l h = record {
    more = omega arith;
    within = l;
    taken = refl;
    given = refl;
    others = λ x e f. refl;
    enough = h;
  }

  mark_cpu-Marked :
      (need n : ℕ) (cs : List ℤ)
      → n < need
      → Marked old new need n
          (count_load cs)
          (count_load (mark_cpu old new (pos need) n cs).0)
          (mark_cpu old new (pos need) n cs).1
  unfolding mark_cpu
  mark_cpu-Marked need n [] l = Marked-same need n (λ l. 0) (omega (arith, l)) (λ h. refl)
  mark_cpu-Marked need n (c ∷ cs) l = elim (Bool-cases (c ==ℤ old)) [
    | inl hit ↦ elim (Bool-cases (pos (suc n) ==ℤ pos need)) [
      | inl last ↦
          rw (hit, last, mark_cpu)
            (hit_first need n (suc n) c (count_load cs) (count_load cs) hit (
              Marked-same need (suc n) (count_load cs) (omega (arith, l))
                (λ h. absurd (ground (arith, h, last)))))
      | inr early ↦
          rw (hit, early, mark_cpu)
            (hit_first need n _ c (count_load cs) _ hit
              (mark_cpu-Marked need (suc n) cs (ground (arith, l, early))))
    ]
    | inr miss ↦
        rw (miss, mark_cpu)
          (miss_first need n _ c (count_load cs) _ miss (mark_cpu-Marked need n cs l))
  ]

  Marked-append :
      (need n m k : ℕ) (b a d e : ℤ → ℕ)
      → Marked old new need n b a m
      → Marked old new need m d e k
      → Marked old new need n (λ l. b l + d l) (λ l. a l + e l) k
  Marked-append need n m k b a d e r s = record {
    more = omega (arith, r.more, s.more);
    within = s.within;
    taken = omega (arith, r.taken, s.taken);
    given = omega (arith, r.given, s.given);
    others = λ l f g. omega (arith, r.others l f g, s.others l f g);
    enough = λ h. omega (arith, r.enough (omega (arith, h, s.more)), s.enough h);
  }

-- The cores that a job is allocated.
pub allocate_cores-Marked :
    (load : ℤ) (need n : ℕ) (cs : List (List ℤ))
    → (idle_load ==ℤ clamped_load load) ≡ false
    → n < need
    → (m : ℕ) × Marked idle_load
        (clamped_load load)
        need
        n
        (count_loads cs)
        (count_loads (allocate_cores load (pos need) n cs))
        m
unfolding allocate_cores
allocate_cores-Marked load need n [] differ l =
    (n, Marked-same _ _ differ need n (λ l. 0) (omega (arith, l)) (λ h. refl))
allocate_cores-Marked load need n (c ∷ cs) differ l =
    let d = mark_cpu idle_load (clamped_load load) (pos need) n c in
    let r = mark_cpu-Marked _ _ differ need n c l in
    elim (Bool-cases (pos d.1 ==ℤ pos need)) [
      | inl full ↦
          rw (full, allocate_cores)
            (
              d.1,
              Marked-append _ _ differ need n d.1 d.1 _ _ _ _ r (
                  Marked-same _ _ differ need d.1 (count_loads cs) r.within
                    (λ h. absurd (ground (arith, h, full)))),
            )
      | inr more ↦
          let (k, s) =
            allocate_cores-Marked load need d.1 cs differ (ground (arith, r.within, more)) in
          rw (more, allocate_cores) (k, Marked-append _ _ differ need n d.1 k _ _ _ _ r s)
    ]

-- The cores that are given back at the end of a job.
pub unload_cores-Marked :
    (load : ℤ) (need n : ℕ) (cs : List (List ℤ))
    → (job_load load ==ℤ idle_load) ≡ false
    → n ≤ need
    → (m : ℕ) × Marked
        (job_load load)
        idle_load
        need
        n
        (count_loads cs)
        (count_loads (unload_cores load (pos need) n cs))
        m
unfolding unload_cores
unload_cores-Marked load need n [] differ l =
    (n, Marked-same _ _ differ need n (λ l. 0) l (λ h. refl))
unload_cores-Marked load need n (c ∷ cs) differ l =
    let d = mark_cpu (job_load load) idle_load (pos need) n c in
    elim (Bool-cases (pos n ==ℤ pos need)) [
      | inl full ↦
          rw (full, unload_cores)
            (
              n,
              Marked-same _ _ differ need n (count_loads (c ∷ cs)) l
                  (λ h. absurd (ground (arith, h, full))),
            )
      | inr more ↦
          let r = mark_cpu-Marked _ _ differ need n c (ground (arith, l, more)) in
          let (k, s) = unload_cores-Marked load need d.1 cs differ r.within in
          rw (more, unload_cores) (k, Marked-append _ _ differ need n d.1 k _ _ _ _ r s)
    ]

-- The same load everywhere is no other load.
pub count_loads-set_loads :
    (v l : ℤ) (cs : List (List ℤ)) → (v ==ℤ l) ≡ false → count_loads (set_loads v cs) l ≡ 0
unfolding set_loads
count_loads-set_loads v l [] differ = refl
count_loads-set_loads v l (c ∷ cs) differ =
    omega (arith, none_of c, count_loads-set_loads v l cs differ)
  where
    none_of : (ds : List ℤ) → count_load (map (λ _. v) ds) l ≡ 0
    none_of [] = refl
    none_of (d ∷ ds) = rw differ (omega (arith, none_of ds))

-- Loads between 1 and 99 are not idle, and not cut off.
abbrev pub IsProperLoad : ℤ → Type 0
IsProperLoad load = (pos 1 ≤ℤ load) × (load ≤ℤ pos 99)

pub job_load-idle : (load : ℤ) → IsProperLoad load → (job_load load ==ℤ idle_load) ≡ false
job_load-idle load p = ground (arith, +ℤ_parts (load +ℤ load) (pos 1), +ℤ_parts load load, p)

pub clamped_load_lem : (load : ℤ) → IsProperLoad load → clamped_load load ≡ job_load load
clamped_load_lem load p = elim (Bool-cases (ltb_ℤ (pos 200) (job_load load))) [
  | inl over ↦ absurd (ground (arith, +ℤ_parts (load +ℤ load) (pos 1), +ℤ_parts load load, p, over))
  | inr fits ↦ rw fits refl
]

abbrev pub at_load : ℤ → ℕ → ℤ → ℕ
at_load load need l = if job_load load ==ℤ l then need else 0

all-Marked :
    (old new : ℤ) (need m : ℕ) (b a : ℤ → ℕ) → Marked old new need 0 b a m → need ≤ b old → m ≡ need
all-Marked old new need m b a r room = elim (Bool-cases (ltb m need)) [
  | inl short ↦
      let less : m < need = ground (arith, short) in
      absurd (omega (arith, r.enough less, r.taken, room, less))
  | inr reached ↦ ground (arith, reached, r.within)
]

-- A job that finds enough idle cores has its number of cores with its load.
pub allocate_cores-at_load :
    (load : ℤ) (need : ℕ) (cs : List (List ℤ))
    → IsProperLoad load
    → 0 < need
    → need ≤ count_loads cs idle_load
    → (l : ℤ) → (l ==ℤ idle_load) ≡ false
    → count_loads (allocate_cores load (pos need) 0 cs) l ≡ count_loads cs l + at_load load need l
allocate_cores-at_load load need cs p some_cores room l other =
    let same = clamped_load_lem load p in
    let after = count_loads (allocate_cores load (pos need) 0 cs) in
    let (m, marked) =
      allocate_cores-Marked load need 0 cs
        (ap (λ v. idle_load ==ℤ v) same ∙ ground (arith, job_load-idle load p)) some_cores in
    let r = subst (λ v. Marked idle_load v need 0 (count_loads cs) after m) same marked in
    let full = all-Marked _ _ need m _ _ r room in
    elim (Bool-cases (job_load load ==ℤ l)) [
      | inl hit ↦ rw hit (
          subst (λ v. after v ≡ count_loads cs v + need) {x = job_load load} (==ℤ→eq _ _ hit)
            (omega (arith, r.given, full)))
      | inr miss ↦ rw miss (omega (arith, r.others l other (ground (arith, miss))))
    ]

-- At the end of a job its number of cores is idle again.
pub unload_cores-at_load :
    (load : ℤ) (need : ℕ) (cs : List (List ℤ))
    → IsProperLoad load
    → need ≤ count_loads cs (job_load load)
    → (l : ℤ) → (l ==ℤ idle_load) ≡ false
    → count_loads (unload_cores load (pos need) 0 cs) l + at_load load need l ≡ count_loads cs l
unload_cores-at_load load need cs p there l other =
    let after = count_loads (unload_cores load (pos need) 0 cs) in
    let (m, r) = unload_cores-Marked load need 0 cs (job_load-idle load p) (omega arith) in
    let full = all-Marked _ _ need m _ _ r there in
    elim (Bool-cases (job_load load ==ℤ l)) [
      | inl hit ↦ rw hit (
          subst (λ v. after v + need ≡ count_loads cs v) {x = job_load load} (==ℤ→eq _ _ hit)
            (omega (arith, r.taken, full)))
      | inr miss ↦ rw miss (omega (arith, r.others l (ground (arith, miss)) other))
    ]

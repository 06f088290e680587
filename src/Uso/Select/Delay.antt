-- ===== src/Uso/Select/Delay.antt =====
-- The search for the shortest delay: a site that can start the job at once, or else one that no other
-- is better than in both the queueing time and the length of the queue.
use mathlib.Core.Path.{subst}
use mathlib.Core.List.{append_assoc, append-nil}
use cplusplus_projects.Common.{
  ℕ, suc, ◌<◌, ◌≡◌, ◌≢◌, ◌⊎◌, refl, ap, sym, ◌∙◌, Bool, true, false, ◌&&◌, ◌||◌, List, [], ◌∷◌,
  ◌++◌, ℤ, pos, negsuc, ◌≤ℤ◌, ltb_ℤ, ◌==ℤ◌, ◌==◌, ltb, if◌then◌else◌, arith, All, All-append,
  length, length-append, and_true, and_true_of, ◌+ℤ◌, Result, ok, Bool-cases, inl, inr,
}
use cplusplus_projects.Rms.State.{Rms}
use cplusplus_projects.Rms.Search.Outcome.{HasServers}
use cplusplus_projects.Uso.Ratio.{leb_ratio, leb_ratio-transitive}
use cplusplus_projects.Uso.State.{
  RmsInfo, Client, Uso, lookup_client, average_queue_time, average_of, sum_times,
}
use cplusplus_projects.Uso.Select.{Soonest, no_site, is_sooner, site_of, find_soonest}
use cplusplus_projects.Uso.Sites.{
  HasSites, All-at, total_cores_at, finds_servers, lookup_rms_at, search_rms_servers_at,
}

abbrev pub starts_at_once : Client → RmsInfo → Bool
starts_at_once c s = (length s.rms.job_queue == 0) && finds_servers c s

-- The loop, on the sites themselves.
unfoldable pub scan_soonest : Client → ℕ → Soonest → List RmsInfo → ℤ
scan_soonest c i b [] = b.selected
scan_soonest c i b (s ∷ xs) =
    let rest = scan_soonest c (suc i) (if is_sooner s.rms b then site_of i s.rms else b) xs in
    if starts_at_once c s then pos i else rest

decide :
    (u : Uso) (t : Bool) (x y : ℤ)
    → if◌then◌else◌ {A = Result (ℤ × Uso)} t (ok (x, u)) (ok (y, u)) ≡ ok (if t then x else y, u)
decide u true x y = refl
decide u false x y = refl

find_soonest-scan :
    (u : Uso) (a : ℕ) (c : Client) (b : Soonest) (before rest : List RmsInfo)
    → lookup_client u.clients a ≡ ok c
    → pos 0 ≤ℤ c.cores
    → HasSites u
    → All (λ s. 0 < s.rms.num_servers) u.rms_list
    → u.rms_list ≡ before ++ rest
    → find_soonest a (length rest) (length before) b u
      ≡ ok (scan_soonest c (length before) b rest, u)
unfolding find_soonest scan_soonest
find_soonest-scan u a c b before [] known cores h servers split = refl
find_soonest-scan u a c b before (s ∷ xs) known cores h servers split =
    let searched = search_rms_servers_at u a c known cores h before s xs split in
    let site = lookup_rms_at u a c known cores h before s xs split in
    let served =
      All-at (λ t. HasServers t.rms) before s xs
        (subst (All (λ t. HasServers t.rms)) split h.served) in
    let some_server =
      All-at (λ t. 0 < t.rms.num_servers) before s xs
        (subst (All (λ t. 0 < t.rms.num_servers)) split servers) in
    let (total, first) = total_cores_at s served some_server in
    let next = if is_sooner s.rms b then site_of (length before) s.rms else b in
    let ih =
      find_soonest-scan u a c next (before ++ s ∷ []) xs known cores h servers
        (split ∙ sym (append_assoc before (s ∷ []) xs)) in
    let here : length (before ++ s ∷ []) ≡ suc (length before) =
      omega (arith, length-append before (s ∷ [])) in
    let ih' =
      subst (λ n. find_soonest a (length xs) n next u ≡ ok (scan_soonest c n next xs, u)) here ih in
    rw (searched, site, first, ih') (decide u (starts_at_once c s) _ _)

-- The site is at number `k` of the list.
abbrev pub IsAt : List RmsInfo → ℤ → RmsInfo → Type 0
IsAt xs n s =
    (before : List RmsInfo) × (rest : List RmsInfo) × (xs ≡ before ++ s ∷ rest)
    × (n ≡ pos (length before))

-- Not later by the queueing time, and a shorter queue.
abbrev pub is_better : Rms → Rms → Bool
is_better r s =
    leb_ratio (average_queue_time r) (average_queue_time s)
    && ltb (length r.job_queue) (length s.job_queue)

-- The first site that can start the job at once; or none can, and no site is better than the answer.
abbrev pub Shortest : Client → List RmsInfo → ℤ → Type 0
Shortest c xs n =
    ((before : List RmsInfo) × (s : RmsInfo) × (rest : List RmsInfo) × (xs ≡ before ++ s ∷ rest)
      × (n ≡ pos (length before))
      × (starts_at_once c s ≡ true)
      × All (λ t. starts_at_once c t ≡ false) before)
    ⊎ (All (λ t. starts_at_once c t ≡ false) xs
        × ((s : RmsInfo) × IsAt xs n s × All (λ t. is_better t.rms s.rms ≡ false) xs))

average_under : (ts : List ℤ) → 0 < (average_of ts).under
average_under [] = omega arith
average_under (t ∷ ts) = elim (Bool-cases (t +ℤ sum_times ts ==ℤ pos 0)) [
  | inl zero_sum ↦ rw zero_sum (omega arith)
  | inr other ↦ rw other (omega arith)
]

is_better-transitive :
    (r s t : Rms) → is_better s t ≡ true → is_better r s ≡ true → is_better r t ≡ true
is_better-transitive r s t h k =
    let (h1, h2) = and_true _ _ h in
    let (k1, k2) = and_true _ _ k in
    and_true_of _ _
      (leb_ratio-transitive (average_queue_time r) (average_queue_time s) (average_queue_time t)
        (average_under s.queue_time) k1 h1)
      (ground (arith, h2, k2))

-- The candidate after the sites `before`, none of which can start the job at once.
abbrev BestOf : List RmsInfo → Soonest → Type 0
BestOf xs b =
    ((xs ≡ []) × (b ≡ no_site))
    ⊎ ((s : RmsInfo) × (n : ℕ) × (b ≡ site_of n s.rms)
        × IsAt xs (pos n) s
        × All (λ t. is_better t.rms s.rms ≡ false) xs)

sooner-better : (t s : Rms) (n : ℕ) → is_sooner t (site_of n s) ≡ is_better t s
sooner-better t s n = ap (λ b. leb_ratio (average_queue_time t) (average_queue_time s) && b) tests
  where
    tests :
        (ltb_ℤ (pos (length t.job_queue)) (pos (length s.job_queue))
          || (pos (length s.job_queue) ==ℤ negsuc 0))
        ≡ ltb (length t.job_queue) (length s.job_queue)
    tests = ground arith

not_better_itself : (s : Rms) → is_better s s ≡ false
not_better_itself s = elim (Bool-cases (is_better s s)) [
  | inl better ↦ absurd (
      let (h1, h2) =
        and_true (leb_ratio (average_queue_time s) (average_queue_time s))
          (ltb (length s.job_queue) (length s.job_queue)) better in
      ground (arith, h2))
  | inr worse ↦ worse
]

-- Nothing is better than a site that is better than one that nothing is better than.
All-better :
    (s t : Rms) (xs : List RmsInfo)
    → is_better t s ≡ true
    → All (λ r. is_better r.rms s ≡ false) xs
    → All (λ r. is_better r.rms t ≡ false) xs
All-better s t [] h a = tt
All-better s t (r ∷ xs) h a = (not_better (Bool-cases (is_better r.rms t)), All-better s t xs h a.1)
  where
    not_better :
        (is_better r.rms t ≡ true) ⊎ (is_better r.rms t ≡ false) → is_better r.rms t ≡ false
    not_better (inl better) = absurd (let c = is_better-transitive r.rms t s h better in cc)
    not_better (inr worse) = worse

or_true : (b : Bool) → (b || true) ≡ true
or_true true = refl
or_true false = refl

sooner_first : (r : Rms) → is_sooner r no_site ≡ true
sooner_first r = or_true (ltb_ℤ (pos (length r.job_queue)) (negsuc 0))

BestOf-step :
    (xs : List RmsInfo) (b : Soonest) (t : RmsInfo)
    → BestOf xs b
    → BestOf (xs ++ t ∷ []) (if is_sooner t.rms b then site_of (length xs) t.rms else b)
BestOf-step xs b t (inl (e, f)) =
    rw (e, f, sooner_first t.rms)
      (inr (t, 0, refl, ([], [], refl, refl), (not_better_itself t.rms, tt)))
BestOf-step xs b t (inr (s, n, e, (before, rest, split, at), all)) =
    rw (e, sooner-better t.rms s.rms n)
      (elim (Bool-cases (is_better t.rms s.rms)) [
        | inl better ↦ rw better (
            inr (
              t,
              length xs,
              refl,
              (xs, [], refl, refl),
              All-append _ xs (t ∷ []) (All-better s.rms t.rms xs better all)
                  (not_better_itself t.rms, tt),
            ))
        | inr worse ↦ rw worse (
            inr (
              s,
              n,
              refl,
              (
                before,
                rest ++ t ∷ [],
                ap (λ v. v ++ t ∷ []) split ∙ append_assoc before (s ∷ rest) (t ∷ []),
                at,
              ),
              All-append _ xs (t ∷ []) all (worse, tt),
            ))
      ])

scan_soonest-Shortest :
    (c : Client) (b : Soonest) (before rest : List RmsInfo)
    → before ++ rest ≢ []
    → All (λ t. starts_at_once c t ≡ false) before
    → BestOf before b
    → Shortest c (before ++ rest) (scan_soonest c (length before) b rest)
unfolding scan_soonest
scan_soonest-Shortest c b before [] some_site nowhere best =
    subst (λ v. Shortest c v b.selected) (sym (append-nil before)) (end best)
  where
    end : BestOf before b → Shortest c before b.selected
    end (inl (e, f)) = absurd (some_site (append-nil before ∙ e))
    end (inr (s, n, e, at, all)) =
        subst (λ v. Shortest c before v.selected) (sym e) (inr (nowhere, (s, at, all)))
scan_soonest-Shortest c b before (s ∷ xs) some_site nowhere best =
    elim (Bool-cases (starts_at_once c s)) [
      | inl now ↦ rw (now, scan_soonest) (inl (before, s, xs, refl, refl, now, nowhere))
      | inr later ↦
          let next = if is_sooner s.rms b then site_of (length before) s.rms else b in
          let here : length (before ++ s ∷ []) ≡ suc (length before) =
            omega (arith, length-append before (s ∷ [])) in
          let joined = append_assoc before (s ∷ []) xs in
          let ih =
            scan_soonest-Shortest c next (before ++ s ∷ []) xs (λ e. some_site (sym joined ∙ e))
              (All-append _ before (s ∷ []) nowhere (later, tt)) (BestOf-step before b s best) in
          rw (later, scan_soonest)
            (subst (λ n. Shortest c (before ++ s ∷ xs) (scan_soonest c n next xs)) here
              (subst (λ v. Shortest c v (scan_soonest c (length (before ++ s ∷ [])) next xs)) joined
                ih))
    ]

-- With at least one site, as many sites numbered from 0 on as counted, each with its servers
-- numbered and counted and at least one of them, and a registered client that needs no negative
-- number of cores, the search for the shortest delay changes nothing and answers the first site
-- with an empty queue where enough servers suit the job. If there is none, it answers a site to
-- which no site is preferable that has both no longer an average queueing time and a shorter queue.
pub find_soonest-Shortest :
    (u : Uso) (a : ℕ) (c : Client)
    → lookup_client u.clients a ≡ ok c
    → pos 0 ≤ℤ c.cores
    → HasSites u
    → 0 < u.num_rms
    → All (λ s. 0 < s.rms.num_servers) u.rms_list
    → (n : ℤ) × (find_soonest a u.num_rms 0 no_site u ≡ ok (n, u)) × Shortest c u.rms_list n
find_soonest-Shortest u a c known cores h some_site servers = (
  scan_soonest c 0 no_site u.rms_list,
  ap (λ n. find_soonest a n 0 no_site u) h.counted
      ∙ find_soonest-scan u a c no_site [] u.rms_list known cores h servers refl,
  scan_soonest-Shortest c no_site [] u.rms_list
      (λ e. absurd (omega (arith, some_site, h.counted, ap length e))) tt (inl (refl, refl)),
)

-- ===== src/BitTorrent/Choking/Frame.antt =====
-- What a round of the choking loop does to the connection it looks at, and to the others.
use cplusplus_projects.Common.{
  ℕ, ◌+◌, ◌≤◌, ◌≡◌, ◌≢◌, inl, inr, refl, ap, ◌∙◌, sym, Bool, true, false, ◌&&◌, List, [], ◌∷◌,
  if◌then◌else◌, ltb, ◌==◌, ==_iff, Bool-cases, arith, All, Fresh,
}
use cplusplus_projects.BitTorrent.Wire.{Handler, Wire, set_thread}
use cplusplus_projects.BitTorrent.Choking.{
  Decision, skip, unchoke_downloader, refuse, unchoke_for_rate, leave, choke_it, keep, branch,
  decide, Round, act, choke_step, choke_loop, is_eligible,
}

pub set_thread_self : (t : ℕ) (h : Handler) (threads : ℕ → Handler) → set_thread t h threads t ≡ h
set_thread_self t h threads = rw ((==_iff t t).1 refl) refl

pub set_thread_ne :
    (t u : ℕ) (h : Handler) (threads : ℕ → Handler) → t ≢ u → set_thread t h threads u ≡ threads u
set_thread_ne t u h threads ne = elim (Bool-cases (u == t)) [
  | inl same ↦ absurd (ne (sym ((==_iff u t).0 same)))
  | inr other ↦ rw other refl
]

act_ne :
    (w : Wire) (t u : ℕ) (d : Decision) (r : Round) → t ≢ u → (act w t d r).threads u ≡ r.threads u
unfolding act
act_ne w t u skip r ne = refl
act_ne w t u unchoke_downloader r ne = set_thread_ne t u _ r.threads ne
act_ne w t u refuse r ne = refl
act_ne w t u unchoke_for_rate r ne = set_thread_ne t u _ r.threads ne
act_ne w t u leave r ne = refl
act_ne w t u choke_it r ne = set_thread_ne t u _ r.threads ne
act_ne w t u keep r ne = refl

pub choke_loop-Fresh :
    (w : Wire) (u : ℕ) (ts : List ℕ) (r : Round)
    → Fresh u ts
    → (choke_loop w ts r).threads u ≡ r.threads u
unfolding choke_loop choke_step
choke_loop-Fresh w u [] r f = refl
choke_loop-Fresh w u (t ∷ ts) r f =
    choke_loop-Fresh w u ts (choke_step w t r) f.1 ∙ act_ne w t u _ r f.0

-- Whether the connection is choked after the decision.
abbrev pub chokes : Decision → Bool → Bool
chokes unchoke_downloader b = false
chokes unchoke_for_rate b = false
chokes choke_it b = true
chokes _ b = b

-- How many downloaders the decision counts.
abbrev pub counts : Decision → ℕ
counts unchoke_downloader = 1
counts keep = 1
counts _ = 0

pub act-am_choking :
    (w : Wire) (t : ℕ) (d : Decision) (r : Round)
    → ((act w t d r).threads t).am_choking ≡ chokes d (r.threads t).am_choking
unfolding act
act-am_choking w t skip r = refl
act-am_choking w t unchoke_downloader r =
    ap (λ (h : Handler). h.am_choking) (set_thread_self t _ r.threads)
act-am_choking w t refuse r = refl
act-am_choking w t unchoke_for_rate r =
    ap (λ (h : Handler). h.am_choking) (set_thread_self t _ r.threads)
act-am_choking w t leave r = refl
act-am_choking w t choke_it r = ap (λ (h : Handler). h.am_choking) (set_thread_self t _ r.threads)
act-am_choking w t keep r = refl

pub act-num_downloaders :
    (w : Wire) (t : ℕ) (d : Decision) (r : Round)
    → (act w t d r).num_downloaders ≡ r.num_downloaders + counts d
unfolding act
act-num_downloaders w t skip r = omega arith
act-num_downloaders w t unchoke_downloader r = omega arith
act-num_downloaders w t refuse r = omega arith
act-num_downloaders w t unchoke_for_rate r = omega arith
act-num_downloaders w t leave r = omega arith
act-num_downloaders w t choke_it r = omega arith
act-num_downloaders w t keep r = omega arith

-- An eligible peer that wants to download and is choked afterwards met the limit; one that is
-- counted is not choked afterwards; one that is served is counted; and the count keeps to the limit
-- unless it is a peer that was optimistically unchoked.
pub record BranchFacts (eligible choking interested opt : Bool) (n limit : ℕ) (d : Decision)
    : Type 0 where
  pub met : eligible ≡ true → interested ≡ true → chokes d choking ≡ true → limit ≤ n
  pub counted : counts d ≤ (if chokes d choking then 0 else 1)
  pub served : eligible ≡ true → interested ≡ true → chokes d choking ≡ false → counts d ≡ 1
  pub within : (eligible && opt) ≡ false → n ≤ limit → n + counts d ≤ limit

pub branch_facts :
    (eligible choking interested opt fast : Bool) (n limit : ℕ)
    → BranchFacts eligible choking interested opt n limit
        (branch eligible choking interested opt fast n limit)
unfolding branch
branch_facts false choking interested opt fast n limit = record {
  met = λ e i c. cc;
  counted = omega arith;
  served = λ e i c. cc;
  within = λ o l. omega arith;
}
branch_facts true true true opt fast n limit = elim (Bool-cases (ltb n limit)) [
  | inl room ↦ rw room (record {
    met = λ e i c. cc;
    counted = omega arith;
    served = λ e i c. refl;
    within = λ o l. ground (arith, room);
  })
  | inr full ↦ rw full (record {
    met = λ e i c. ground (arith, full);
    counted = omega arith;
    served = λ e i c. cc;
    within = λ o l. omega arith;
  })
]
branch_facts true true false opt true n limit = record {
  met = λ e i c. cc;
  counted = omega arith;
  served = λ e i c. cc;
  within = λ o l. omega arith;
}
branch_facts true true false opt false n limit = record {
  met = λ e i c. cc;
  counted = omega arith;
  served = λ e i c. cc;
  within = λ o l. omega arith;
}
branch_facts true false interested true fast n limit = elim (Bool-cases (n == limit)) [
  | inl full ↦ rw full (record {
    met = λ e i c. cc;
    counted = omega arith;
    served = λ e i c. refl;
    within = λ o l. cc;
  })
  | inr room ↦ rw room (record {
    met = λ e i c. cc;
    counted = omega arith;
    served = λ e i c. refl;
    within = λ o l. cc;
  })
]
branch_facts true false interested false fast n limit = elim (Bool-cases (n == limit)) [
  | inl full ↦ rw full (record {
    met = λ e i c. ground (arith, full);
    counted = omega arith;
    served = λ e i c. cc;
    within = λ o l. omega arith;
  })
  | inr room ↦ rw room (record {
    met = λ e i c. cc;
    counted = omega arith;
    served = λ e i c. refl;
    within = λ o l. ground (arith, room);
  })
]

-- The rest of the list still has the connections of the start.
abbrev pub Untouched : Wire → List ℕ → Round → Type 0
Untouched w ts r = All (λ t. r.threads t ≡ w.threads t) ts

pub decided : Wire → Round → ℕ → Decision
decided w r t = decide w r.num_downloaders r.min_rate (w.threads t)

-- The peer at the head is not touched again.
pub record HeadFacts (w : Wire) (t : ℕ) (ts : List ℕ) (r : Round) : Type 0 where
  pub choking :
      ((choke_loop w (t ∷ ts) r).threads t).am_choking
      ≡ chokes (decided w r t) (w.threads t).am_choking
  pub counted : (choke_step w t r).num_downloaders ≡ r.num_downloaders + counts (decided w r t)
  pub rest : Untouched w ts (choke_step w t r)
  pub facts :
      BranchFacts
        (is_eligible w (w.threads t))
        (w.threads t).am_choking
        (w.threads t).peer_interested
        (w.threads t).optimistically_unchoked
        r.num_downloaders
        w.downloaders
        (decided w r t)

step_rest :
    (w : Wire) (t : ℕ) (ts : List ℕ) (r : Round)
    → Fresh t ts
    → Untouched w ts r
    → Untouched w ts (choke_step w t r)
unfolding choke_step
step_rest w t [] r f u = tt
step_rest w t (v ∷ ts) r f u =
    (act_ne w t v _ r (λ e. f.0 (sym e)) ∙ u.0, step_rest w t ts r f.1 u.1)

pub head_facts :
    (w : Wire) (t : ℕ) (ts : List ℕ) (r : Round)
    → Fresh t ts
    → Untouched w (t ∷ ts) r
    → HeadFacts w t ts r
unfolding choke_loop choke_step decided decide
head_facts w t ts r f u =
    let d = decide w r.num_downloaders r.min_rate (w.threads t) in
    let same : choke_step w t r ≡ act w t d r =
      ap (λ h. act w t (decide w r.num_downloaders r.min_rate h) r) u.0 in
    record {
      choking =
          ap (λ (h : Handler). h.am_choking) (choke_loop-Fresh w t ts (choke_step w t r) f)
          ∙ ap (λ (q : Round). (q.threads t).am_choking) same
          ∙ act-am_choking w t d r
          ∙ ap (λ (h : Handler). chokes d h.am_choking) u.0;
      counted = ap (λ (q : Round). q.num_downloaders) same ∙ act-num_downloaders w t d r;
      rest = step_rest w t ts r f u.1;
      facts = branch_facts _ _ _ _ _ _ _;
    }

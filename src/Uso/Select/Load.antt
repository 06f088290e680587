-- ===== src/Uso/Select/Load.antt =====
-- The choice of the site with the least load, and the energy-aware choice as a whole.
use mathlib.Core.Path.{subst}
use mathlib.Core.List.{append_assoc, append-nil}
use cplusplus_projects.Common.{
  ℕ, suc, ◌<◌, ◌≡◌, ◌≢◌, ◌⊎◌, refl, ap, sym, ◌∙◌, true, false, List, [], ◌∷◌, ◌++◌, Option, none,
  some, ℤ, pos, ◌≤ℤ◌, if◌then◌else◌, arith, All, All-append, length, length-append, ok, Bool-cases,
  inl, inr,
}
use cplusplus_projects.Rms.State.{Rms}
use cplusplus_projects.Uso.Ratio.{Ratio, leb_ratio, ltb_ratio, leb_ratio-transitive, leb_ratio_refl}
use cplusplus_projects.Uso.State.{RmsInfo, Client, Uso, lookup_client}
use cplusplus_projects.Uso.Select.{
  queue_load, is_lower, find_greenest, find_least_loaded, no_cluster, select_energy_aware,
}
use cplusplus_projects.Uso.Select.Delay.{IsAt}
use cplusplus_projects.Uso.Select.Energy.{
  has_short_queue, scan_greenest, Greenly, find_greenest-scan, scan_greenest-GreenestOf,
}
use cplusplus_projects.Uso.Sites.{HasSites, lookup_rms_at}

-- No site has a smaller load.
abbrev pub LeastLoaded : List RmsInfo → ℤ → Type 0
LeastLoaded xs n =
    (s : RmsInfo) × IsAt xs n s
    × All (λ r. leb_ratio (queue_load s.rms) (queue_load r.rms) ≡ true) xs

abbrev LeastOf : List RmsInfo → ℤ → Option Ratio → Type 0
LeastOf xs n threshold =
    ((xs ≡ []) × (threshold ≡ none))
    ⊎ ((s : RmsInfo) × (threshold ≡ some (queue_load s.rms))
        × (0 < s.rms.num_servers)
        × IsAt xs n s
        × All (λ r. leb_ratio (queue_load s.rms) (queue_load r.rms) ≡ true) xs)

All-less :
    (s t : RmsInfo) (xs : List RmsInfo)
    → 0 < s.rms.num_servers
    → ltb_ratio (queue_load t.rms) (queue_load s.rms) ≡ true
    → All (λ r. leb_ratio (queue_load s.rms) (queue_load r.rms) ≡ true) xs
    → All (λ r. leb_ratio (queue_load t.rms) (queue_load r.rms) ≡ true) xs
All-less s t [] p h a = tt
All-less s t (r ∷ xs) p h a =
    let no_more : leb_ratio (queue_load t.rms) (queue_load s.rms) ≡ true = ground (arith, h) in
    (
      leb_ratio-transitive (queue_load t.rms) (queue_load s.rms) (queue_load r.rms) p no_more a.0,
      All-less s t xs p h a.1,
    )

abbrev next_selected : Option Ratio → ℕ → RmsInfo → ℤ → ℤ
next_selected threshold i t n = if is_lower (queue_load t.rms) threshold then pos i else n

abbrev next_threshold : Option Ratio → RmsInfo → Option Ratio
next_threshold threshold t =
    if is_lower (queue_load t.rms) threshold then some (queue_load t.rms) else threshold

LeastOf-step :
    (xs : List RmsInfo) (n : ℤ) (threshold : Option Ratio) (t : RmsInfo)
    → 0 < t.rms.num_servers
    → LeastOf xs n threshold
    → LeastOf (xs ++ t ∷ []) (next_selected threshold (length xs) t n) (next_threshold threshold t)
LeastOf-step xs n threshold t p (inl (e, f)) =
    rw (e, f) (inr (t, refl, p, ([], [], refl, refl), (leb_ratio_refl (queue_load t.rms), tt)))
LeastOf-step xs n threshold t p (inr (s, e, q, (before, rest, split, at), all)) =
    rw e (elim (Bool-cases (ltb_ratio (queue_load t.rms) (queue_load s.rms))) [
      | inl less ↦ rw less (
          inr (
            t,
            refl,
            p,
            (xs, [], refl, refl),
            All-append _ xs (t ∷ []) (All-less s t xs q less all)
                (leb_ratio_refl (queue_load t.rms), tt),
          ))
      | inr more ↦
          let no_less : leb_ratio (queue_load s.rms) (queue_load t.rms) ≡ true =
            ground (arith, more) in
          rw more (
            inr (
              s,
              refl,
              q,
              (
                before,
                rest ++ t ∷ [],
                ap (λ v. v ++ t ∷ []) split ∙ append_assoc before (s ∷ rest) (t ∷ []),
                at,
              ),
              All-append _ xs (t ∷ []) all (no_less, tt),
            ))
    ])

module _ (u : Uso) (a : ℕ) (c : Client) (known : lookup_client u.clients a ≡ ok c)
    (cores : pos 0 ≤ℤ c.cores) (h : HasSites u) where
  find_least_loaded_lem :
      (n : ℤ) (threshold : Option Ratio) (before rest : List RmsInfo)
      → u.rms_list ≡ before ++ rest
      → before ++ rest ≢ []
      → All (λ s. 0 < s.rms.num_servers) rest
      → LeastOf before n threshold
      → (m : ℤ) × (find_least_loaded (length rest) (length before) n threshold u ≡ ok m)
        × LeastLoaded (before ++ rest) m
  unfolding find_least_loaded
  find_least_loaded_lem n threshold before [] split some_site p (inl (e, f)) =
      absurd (some_site (append-nil before ∙ e))
  find_least_loaded_lem n threshold before [] split some_site p (inr (s, e, q, at, all)) =
      (n, refl, subst (λ v. LeastLoaded v n) (sym (append-nil before)) (s, at, all))
  find_least_loaded_lem n threshold before (s ∷ xs) split some_site p best =
      let site = lookup_rms_at u a c known cores h before s xs split in
      let joined = append_assoc before (s ∷ []) xs in
      let next = next_selected threshold (length before) s n in
      let lower = next_threshold threshold s in
      let (m, e, least) =
        find_least_loaded_lem next lower (before ++ s ∷ []) xs (split ∙ sym joined)
          (λ f. some_site (sym joined ∙ f)) p.1 (LeastOf-step before n threshold s p.0 best) in
      let here : length (before ++ s ∷ []) ≡ suc (length before) =
        omega (arith, length-append before (s ∷ [])) in
      (
        m,
        rw site (subst (λ k. find_least_loaded (length xs) k next lower u ≡ ok m) here e),
        subst (λ v. LeastLoaded v m) joined least,
      )

  -- With at least one site, as many sites numbered from 0 on as counted, each with its servers
  -- numbered and counted and at least one of them, and a registered client that needs no negative
  -- number of cores, the energy-aware choice answers a site with fewer than 0.7 queued jobs for
  -- each server, such that no other such site has a smaller estimate of the energy; or, if no site
  -- has so few, a site such that no site has fewer queued jobs for each server.
  pub select_energy_aware_lem :
      (energy_estimate : Rms → Client → ℤ)
      → 0 < u.num_rms
      → All (λ s. 0 < s.rms.num_servers) u.rms_list
      → (n : ℤ) × (select_energy_aware energy_estimate a u ≡ ok n)
        × (Greenly energy_estimate c u.rms_list n
            ⊎ (All (λ s. has_short_queue s ≡ false) u.rms_list × LeastLoaded u.rms_list n))
  unfolding select_energy_aware
  select_energy_aware_lem energy_estimate some_site p =
      let b = scan_greenest energy_estimate c 0 no_cluster u.rms_list in
      let scanned : find_greenest energy_estimate a u.num_rms 0 no_cluster u ≡ ok b =
        ap (λ n. find_greenest energy_estimate a n 0 no_cluster u) h.counted
        ∙ find_greenest-scan energy_estimate c u a no_cluster [] u.rms_list known cores h refl in
      let nonempty : u.rms_list ≢ [] =
        λ e. absurd (omega (arith, some_site, h.counted, ap length e)) in
      elim (scan_greenest-GreenestOf energy_estimate c no_cluster [] u.rms_list (inl (refl, tt))) [
        | inl (e, long) ↦
            let (m, f, least) =
              find_least_loaded_lem (pos 0) none [] u.rms_list refl nonempty p (inl (refl, refl)) in
            let f' = ap (λ n. find_least_loaded n 0 (pos 0) none u) h.counted ∙ f in
            (m, rw (scanned, e) f', inr (long, least))
        | inr (s, n, e, at, short, all) ↦ (pos n, rw (scanned, e) refl, inl (s, at, short, all))
      ]

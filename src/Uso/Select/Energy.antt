-- ===== src/Uso/Select/Energy.antt =====
-- The energy-aware choice: of the sites with a short queue the one of the least estimate, or else the
-- site with the least load.
use mathlib.Core.Path.{subst}
use mathlib.Core.List.{append_assoc, append-nil}
use cplusplus_projects.Common.{
  ℕ, suc, ◌≡◌, ◌⊎◌, refl, ap, sym, ◌∙◌, Bool, true, false, ◌&&◌, List, [], ◌∷◌, ◌++◌, some, ℤ, pos,
  ◌≤ℤ◌, ltb_ℤ, arith, All, All-append, length, length-append, and_true, and_true_of, ok, Bool-cases,
  inl, inr,
}
use cplusplus_projects.Rms.State.{Rms}
use cplusplus_projects.Uso.Ratio.{ltb_ratio}
use cplusplus_projects.Uso.State.{RmsInfo, Client, Uso, lookup_client}
use cplusplus_projects.Uso.Select.{
  Greenest, queue_load, seven_tenths, greener, find_greenest, no_cluster,
}
use cplusplus_projects.Uso.Select.Delay.{IsAt}
use cplusplus_projects.Uso.Sites.{HasSites, lookup_rms_at}

-- Fewer than 0.7 jobs in the queue for each server.
abbrev pub has_short_queue : RmsInfo → Bool
has_short_queue s = ltb_ratio (queue_load s.rms) seven_tenths

module _ (energy_estimate : Rms → Client → ℤ) (c : Client) where
  -- A site with a short queue and a smaller estimate.
  abbrev pub is_greener : RmsInfo → RmsInfo → Bool
  is_greener r s = has_short_queue r && ltb_ℤ (energy_estimate r.rms c) (energy_estimate s.rms c)

  abbrev pub green_site : ℕ → RmsInfo → Greenest
  green_site n s = record {
    selected = pos n;
    cluster_found = true;
    candidate_estimate = some (energy_estimate s.rms c);
  }

  -- The loop, on the sites themselves.
  unfoldable pub scan_greenest : ℕ → Greenest → List RmsInfo → Greenest
  scan_greenest i b [] = b
  scan_greenest i b (s ∷ xs) = scan_greenest (suc i) (greener energy_estimate i s.rms c b) xs

  -- Among the sites with a short queue none has a smaller estimate.
  abbrev pub Greenly : List RmsInfo → ℤ → Type 0
  Greenly xs n =
      (s : RmsInfo) × IsAt xs n s
      × (has_short_queue s ≡ true)
      × All (λ r. is_greener r s ≡ false) xs

  abbrev pub GreenestOf : List RmsInfo → Greenest → Type 0
  GreenestOf xs b =
      ((b ≡ no_cluster) × All (λ r. has_short_queue r ≡ false) xs)
      ⊎ ((s : RmsInfo) × (n : ℕ) × (b ≡ green_site n s)
          × IsAt xs (pos n) s
          × (has_short_queue s ≡ true)
          × All (λ r. is_greener r s ≡ false) xs)

  pub find_greenest-scan :
      (u : Uso) (a : ℕ) (b : Greenest) (before rest : List RmsInfo)
      → lookup_client u.clients a ≡ ok c
      → pos 0 ≤ℤ c.cores
      → HasSites u
      → u.rms_list ≡ before ++ rest
      → find_greenest energy_estimate a (length rest) (length before) b u
        ≡ ok (scan_greenest (length before) b rest)
  unfolding find_greenest scan_greenest
  find_greenest-scan u a b before [] known cores h split = refl
  find_greenest-scan u a b before (s ∷ xs) known cores h split =
      let site = lookup_rms_at u a c known cores h before s xs split in
      let next = greener energy_estimate (length before) s.rms c b in
      let ih =
        find_greenest-scan u a next (before ++ s ∷ []) xs known cores h
          (split ∙ sym (append_assoc before (s ∷ []) xs)) in
      let here : length (before ++ s ∷ []) ≡ suc (length before) =
        omega (arith, length-append before (s ∷ [])) in
      rw (site, known)
        (subst
          (λ n. find_greenest energy_estimate a (length xs) n next u ≡ ok (scan_greenest n next xs))
          here ih)

  not_greener_itself : (s : RmsInfo) → is_greener s s ≡ false
  not_greener_itself s = elim (Bool-cases (is_greener s s)) [
    | inl better ↦
        absurd (let (h1, h2) = and_true (has_short_queue s) _ better in ground (arith, h2))
    | inr worse ↦ worse
  ]

  none_greener :
      (xs : List RmsInfo) (s : RmsInfo)
      → All (λ r. has_short_queue r ≡ false) xs
      → All (λ r. is_greener r s ≡ false) xs
  none_greener [] s h = tt
  none_greener (r ∷ xs) s h = (rw h.0 refl, none_greener xs s h.1)

  All-greener :
      (s t : RmsInfo) (xs : List RmsInfo)
      → is_greener t s ≡ true
      → All (λ r. is_greener r s ≡ false) xs
      → All (λ r. is_greener r t ≡ false) xs
  All-greener s t [] h a = tt
  All-greener s t (r ∷ xs) h a =
      (not_greener (Bool-cases (is_greener r t)), All-greener s t xs h a.1)
    where
      not_greener : (is_greener r t ≡ true) ⊎ (is_greener r t ≡ false) → is_greener r t ≡ false
      not_greener (inl better) = absurd (
          let (h1, h2) = and_true (has_short_queue t) _ h in
          let (k1, k2) = and_true (has_short_queue r) _ better in
          let both : is_greener r s ≡ true =
            and_true_of (has_short_queue r) _ k1 (ground (arith, h2, k2)) in
          cc)
      not_greener (inr worse) = worse

  GreenestOf-step :
      (xs : List RmsInfo) (b : Greenest) (t : RmsInfo)
      → GreenestOf xs b
      → GreenestOf (xs ++ t ∷ []) (greener energy_estimate (length xs) t.rms c b)
  GreenestOf-step xs b t (inl (e, all)) = rw e (elim (Bool-cases (has_short_queue t)) [
    | inl short ↦ rw short (
        inr (
          t,
          length xs,
          refl,
          (xs, [], refl, refl),
          short,
          All-append _ xs (t ∷ []) (none_greener xs t all) (not_greener_itself t, tt),
        ))
    | inr long ↦ rw long (inl (refl, All-append _ xs (t ∷ []) all (long, tt)))
  ])
  GreenestOf-step xs b t (inr (s, n, e, (before, rest, split, at), short, all)) =
      rw e (elim (Bool-cases (is_greener t s)) [
        | inl better ↦ rw better (
            inr (
              t,
              length xs,
              refl,
              (xs, [], refl, refl),
              (and_true (has_short_queue t) _ better).0,
              All-append _ xs (t ∷ []) (All-greener s t xs better all) (not_greener_itself t, tt),
            ))
        | inr worse ↦ rw worse (
            inr (
              s,
              n,
              refl,
              (
                before,
                rest ++ t ∷ [],
                ap (λ v. v ++ t ∷ []) split ∙ append_assoc before (s ∷ rest) (t ∷ []),
                at,
              ),
              short,
              All-append _ xs (t ∷ []) all (worse, tt),
            ))
      ])

  pub scan_greenest-GreenestOf :
      (b : Greenest) (before rest : List RmsInfo)
      → GreenestOf before b
      → GreenestOf (before ++ rest) (scan_greenest (length before) b rest)
  unfolding scan_greenest
  scan_greenest-GreenestOf b before [] best =
      subst (λ v. GreenestOf v b) (sym (append-nil before)) best
  scan_greenest-GreenestOf b before (s ∷ xs) best =
      let next = greener energy_estimate (length before) s.rms c b in
      let here : length (before ++ s ∷ []) ≡ suc (length before) =
        omega (arith, length-append before (s ∷ [])) in
      let ih =
        scan_greenest-GreenestOf next (before ++ s ∷ []) xs (GreenestOf-step before b s best) in
      subst (λ n. GreenestOf (before ++ s ∷ xs) (scan_greenest n next xs)) here
        (subst (λ v. GreenestOf v (scan_greenest (length (before ++ s ∷ [])) next xs))
          (append_assoc before (s ∷ []) xs) ih)

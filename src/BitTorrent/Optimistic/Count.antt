-- ===== src/BitTorrent/Optimistic/Count.antt =====
-- How many peers are optimistically unchoked after the algorithm.
use mathlib.Core.Path.{subst}
use cplusplus_projects.Common.{
  ℕ, zero, suc, ◌+◌, ◌<◌, ◌≤◌, ◌≡◌, ◌≢◌, refl, ap, ◌∙◌, Bool, true, List, [], ◌∷◌, length, Result,
  ok, fault, >>=-eq-ok, ok_inj, is_ok, All, AllDistinct, count_if, arith, IsIn, IsIn-self, All-zip,
  filter-AllDistinct, length-filter, leb, filter-All, All-filter, and_true,
}
use cplusplus_projects.BitTorrent.Wire.{Wire}
use cplusplus_projects.BitTorrent.Optimistic.{
  is_opt_unchoked, is_candidate_peer, unchoke_candidates, keep_opt_unchoked, opt_unchoke,
  candidates_vector, opt_unchoked, rotate, optimistic_un_choking_algorithm, last_peer, eligible_of,
}
use cplusplus_projects.BitTorrent.Optimistic.Marked.{
  Candidate, number, Marked, opt_unchoke-Marked, opt_unchoke-number, opt_unchoke-Candidate,
  choke_all-number,
}
use cplusplus_projects.BitTorrent.Optimistic.Enough.{choose_candidate-Taken, is_ok-rotate}

module _ (eligible : ℕ → Bool) (ps : List ℕ) (distinct : AllDistinct ps) where
  stopped :
      (n : ℕ) (w : Wire) {l : ℕ} {v : Wire}
      → ◌≡◌ {A = Result (ℕ × Wire)} (ok (n, w)) (ok (l, v))
      → (number eligible ps v + l ≡ number eligible ps w + n)
        × ((u : ℕ) → Marked eligible w u → Marked eligible v u)
  stopped n w done =
      let left = ap (λ p. p.0) (ok_inj done) in
      let same = ap (λ p. p.1) (ok_inj done) in
      (rw (← same, ← left) refl, λ u m. subst (λ x. Marked eligible x u) same m)

  -- The unchoked candidates are counted.
  unchoke_candidates-number :
      (newly : ℕ → Bool) (intrand : ℕ → ℕ → ℕ)
      → ((d n : ℕ) → 0 < n → intrand d n < n)
      → (d n peer : ℕ) (cs : List ℕ) (w : Wire) {l : ℕ} {v : Wire} → AllDistinct cs
      → All (Candidate eligible ps w.threads) cs
      → unchoke_candidates newly intrand d n peer cs w ≡ ok (l, v)
      → (number eligible ps v + l ≡ number eligible ps w + n)
        × ((u : ℕ) → Marked eligible w u → Marked eligible v u)
  unfolding unchoke_candidates
  unchoke_candidates-number newly intrand in_range d zero peer cs w k h done = stopped 0 w done
  unchoke_candidates-number newly intrand in_range d (suc n) peer [] w k h done =
      stopped (suc n) w done
  unchoke_candidates-number newly intrand in_range d (suc n) peer (c ∷ cs) w k h done =
      let taken = choose_candidate-Taken newly intrand in_range d peer (length cs) (c ∷ cs) refl in
      let done' = rw taken.2 at done in
      let apart = taken.3.distinct k in
      let cands = taken.3.each (Candidate eligible ps w.threads) h in
      let t = taken.0 in
      let rest =
        All-zip (λ u. u ≢ t) (Candidate eligible ps w.threads)
          (Candidate eligible ps (opt_unchoke t w).threads) taken.1
          (λ u. opt_unchoke-Candidate eligible ps distinct w t u) apart.0 cands.1 in
      let ih =
        unchoke_candidates-number newly intrand in_range (suc d) n t taken.1 (opt_unchoke t w)
          apart.1 rest done' in
      let one = opt_unchoke-number eligible ps distinct w t cands.0 in
      (
        omega (arith, one, ih.0),
        λ u m. ih.1 u (opt_unchoke-Marked eligible ps distinct w t u cands.0.passes m),
      )

-- What is kept of the peers that were optimistically unchoked.
keep_opt_unchoked_lem :
    (n : ℕ) (ts : List ℕ) {rest : List ℕ}
    → keep_opt_unchoked n ts ≡ ok rest
    → (length rest + n ≡ length ts)
      × ((P : ℕ → Type 0) → All P ts → All P rest)
      × (AllDistinct ts → AllDistinct rest)
unfolding keep_opt_unchoked
keep_opt_unchoked_lem zero ts {rest} done =
    let same = ok_inj done in
    (rw same omega arith, λ P a. subst (λ x. All P x) same a, λ d. subst AllDistinct same d)
keep_opt_unchoked_lem (suc n) [] done = cc
keep_opt_unchoked_lem (suc n) (t ∷ ts) done =
    let ih = keep_opt_unchoked_lem n ts done in
    (omega (arith, ih.0), λ P a. ih.1 P a.1, λ d. ih.2 d.1)

candidates_vector-Candidate :
    (w : Wire) → All (Candidate (eligible_of w) w.peers w.threads) (candidates_vector w)
candidates_vector-Candidate w =
    let p = is_candidate_peer (eligible_of w) w.threads in
    All-zip (λ t. p t ≡ true) (λ t. IsIn t w.peers) (Candidate (eligible_of w) w.peers w.threads)
      (candidates_vector w)
      (λ t h i.
        let both = and_true (eligible_of w t) (w.threads t).am_choking h in
        record { is_in = i; passes = both.0; choking = both.1 })
      (filter-All p w.peers) (All-filter p (λ t. IsIn t w.peers) w.peers (IsIn-self w.peers))

rotate-number :
    (newly : ℕ → Bool) (intrand : ℕ → ℕ → ℕ) (w : Wire) {v : Wire}
    → ((d n : ℕ) → 0 < n → intrand d n < n)
    → AllDistinct w.peers
    → rotate newly intrand w ≡ ok v
    → count_if (is_opt_unchoked (eligible_of w) v.threads) w.peers ≡ w.opt_unchocked_peers
unfolding rotate
rotate-number newly intrand w {v} in_range distinct done =
    let e = eligible_of w in
    let p = is_opt_unchoked e w.threads in
    let first =
      >>=-eq-ok
        (unchoke_candidates newly intrand 0 w.opt_unchocked_peers (last_peer 0 w.peers)
          (candidates_vector w) w)
        _ done in
    let second = >>=-eq-ok (keep_opt_unchoked first.0.0 (opt_unchoked w)) _ first.2 in
    let loop =
      unchoke_candidates-number e w.peers distinct newly intrand in_range 0 w.opt_unchocked_peers
        (last_peer 0 w.peers) (candidates_vector w) w
        (filter-AllDistinct (is_candidate_peer e w.threads) w.peers distinct)
        (candidates_vector-Candidate w) first.1 in
    let kept = keep_opt_unchoked_lem first.0.0 (opt_unchoked w) second.1 in
    let marked =
      All-zip (λ t. p t ≡ true) (λ t. p t ≡ true) (Marked e first.0.1) (opt_unchoked w)
        (λ t m k. loop.1 t m) (filter-All p w.peers) (filter-All p w.peers) in
    let end =
      choke_all-number e w.peers distinct second.0 first.0.1
        (kept.2 (filter-AllDistinct p w.peers distinct))
        (kept.1 (λ t. IsIn t w.peers)
          (All-filter p (λ t. IsIn t w.peers) w.peers (IsIn-self w.peers)))
        (kept.1 (Marked e first.0.1) marked) in
    let len = length-filter p w.peers in
    let same = ok_inj second.2 in rw (← same) omega (arith, loop.0, kept.0, end, len)

starts :
    (newly : ℕ → Bool) (intrand : ℕ → ℕ → ℕ) (w : Wire)
    → 0 < length (candidates_vector w)
    → optimistic_un_choking_algorithm newly intrand w ≡ rotate newly intrand w
unfolding optimistic_un_choking_algorithm
starts newly intrand w h = by (candidates_vector w) h
  where
    by :
        (cs : List ℕ)
        → 0 < length cs
        → ◌≡◌ {A = Result Wire}
            (elim cs [ [] ↦ ok w | _ ∷ _ ↦ rotate newly intrand w ])
            (rotate newly intrand w)
    by [] h = absurd (omega (arith, h))
    by (c ∷ cs) h = refl

-- With distinct connections, random numbers below their bound, and at least one candidate, and with
-- no fewer candidates and optimistically unchoked peers, taken together, than there are to be: the
-- optimistic unchoking succeeds, and of the peers that it could decide on exactly
-- `optUnchockedPeers` are optimistically unchoked and not choked after it.
pub optimistic_un_choking_algorithm-number :
    (newly : ℕ → Bool) (intrand : ℕ → ℕ → ℕ) (w : Wire)
    → ((d n : ℕ) → 0 < n → intrand d n < n)
    → AllDistinct w.peers
    → 0 < length (candidates_vector w)
    → w.opt_unchocked_peers ≤ length (candidates_vector w) + length (opt_unchoked w)
    → (v : Wire) × (optimistic_un_choking_algorithm newly intrand w ≡ ok v)
      × (count_if (is_opt_unchoked (eligible_of w) v.threads) w.peers ≡ w.opt_unchocked_peers)
optimistic_un_choking_algorithm-number newly intrand w in_range distinct some_peer enough =
    let fine : is_ok (rotate newly intrand w) ≡ true =
      is_ok-rotate newly intrand w in_range
      ∙ le_leb w.opt_unchocked_peers (length (candidates_vector w) + length (opt_unchoked w))
          enough in
    by (rotate newly intrand w) fine refl
  where
    le_leb : (a b : ℕ) → a ≤ b → leb a b ≡ true
    le_leb a b h = ground arith

    by :
        (r : Result Wire)
        → is_ok r ≡ true
        → rotate newly intrand w ≡ r
        → (v : Wire) × (optimistic_un_choking_algorithm newly intrand w ≡ ok v)
          × (count_if (is_opt_unchoked (eligible_of w) v.threads) w.peers ≡ w.opt_unchocked_peers)
    by (fault e) h same = cc
    by (ok v) h same = (
      v,
      starts newly intrand w some_peer ∙ same,
      rotate-number newly intrand w in_range distinct same,
    )

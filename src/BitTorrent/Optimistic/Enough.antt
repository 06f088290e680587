-- ===== src/BitTorrent/Optimistic/Enough.antt =====
-- When the optimistic unchoking has peers enough.
use cplusplus_projects.Common.{
  ℕ, zero, suc, ◌+◌, ◌-◌, ◌<◌, ◌≡◌, ◌≢◌, inl, inr, refl, sym, ap, ◌∙◌, Bool, false, List, [], ◌∷◌,
  pos, negsuc, ◌+ℤ◌, leb, ◌==◌, ◌||◌, length, Bool-cases, Result, ok, fault, ◌>>=◌, is_ok, All,
  AllDistinct, Fresh, arith,
}
use cplusplus_projects.BitTorrent.Wire.{Wire}
use cplusplus_projects.BitTorrent.Optimistic.{
  take_out, choose_candidate, choose_opt_unchoke_peer, unchoke_candidates, keep_opt_unchoked,
  opt_unchoke, choke_all, candidates_vector, opt_unchoked, rotate, optimistic_un_choking_algorithm,
  last_peer,
}

-- A candidate was taken out: what holds of all still holds of it and of the others.
pub record Taken (cs : List ℕ) (t : ℕ) (rest : List ℕ) : Type 1 where
  pub shorter : length cs ≡ suc (length rest)
  pub each : (P : ℕ → Type 0) → All P cs → P t × All P rest
  pub distinct : AllDistinct cs → Fresh t rest × AllDistinct rest

pub take_out-Taken :
    (i : ℕ) (cs : List ℕ)
    → i < length cs
    → (t : ℕ) × (rest : List ℕ) × (take_out i cs ≡ ok (t, rest)) × Taken cs t rest
unfolding take_out
take_out-Taken i [] h = absurd (omega (arith, h))
take_out-Taken zero (c ∷ cs) h =
    (c, cs, refl, record { shorter = refl; each = λ P a. a; distinct = λ d. d })
take_out-Taken (suc i) (c ∷ cs) h =
    let ih = take_out-Taken i cs (omega (arith, h)) in
    let taken = ih.3 in
    (
      ih.0,
      c ∷ ih.1,
      rw ih.2 refl,
      record {
        shorter = ap suc taken.shorter;
        each = λ P a. let r = taken.each P a.1 in (r.0, (a.0, r.1));
        distinct = λ d.
            let r = taken.distinct d.1 in
            let f = taken.each (λ y. y ≢ c) d.0 in (((λ e. f.0 (sym e)), r.0), (f.1, r.1));
      },
    )

pos-pred : (n : ℕ) → (pos (suc n) +ℤ negsuc 0) ≡ pos n
unfolding ◌+ℤ◌
pos-pred n = ground arith

sub_zero : (k : ℕ) → k - 0 ≡ k
sub_zero k = omega arith

zero_sub : (k : ℕ) → 0 - k ≡ 0
zero_sub k = omega arith

suc_ne_zero : (k : ℕ) → (suc k == 0) ≡ false
suc_ne_zero k = ground arith

module _ (newly : ℕ → Bool) (intrand : ℕ → ℕ → ℕ)
    (in_range : (d n : ℕ) → 0 < n → intrand d n < n) where
  choose_opt_unchoke_peer_lt :
      (d n : ℕ) → (i : ℕ) × (choose_opt_unchoke_peer newly intrand d (suc n) ≡ pos i) × (i < suc n)
  choose_opt_unchoke_peer_lt d n = elim (Bool-cases (newly d)) [
    | inl new ↦ (n, rw new (pos-pred n), omega arith)
    | inr old ↦ (intrand d (suc n), rw old refl, in_range d (suc n) (omega arith))
  ]

  pub choose_candidate-Taken :
      (d peer n : ℕ) (cs : List ℕ)
      → length cs ≡ suc n
      → (t : ℕ) × (rest : List ℕ) × (choose_candidate
            (choose_opt_unchoke_peer newly intrand d (length cs))
            peer
            cs
          ≡ ok (t, rest))
        × Taken cs t rest
  unfolding choose_candidate
  choose_candidate-Taken d peer n cs len =
      let c = choose_opt_unchoke_peer_lt d n in
      let taken = take_out-Taken c.0 cs (omega (arith, len, c.2)) in
      (taken.0, taken.1, rw (len, c.1) taken.2, taken.3)

  -- The loop does not fail; what is left is what the candidates do not cover.
  unchoke_candidates_ok :
      (d n peer : ℕ) (cs : List ℕ) (w : Wire)
      → (v : Wire) × (unchoke_candidates newly intrand d n peer cs w ≡ ok (n - length cs, v))
  unfolding unchoke_candidates
  unchoke_candidates_ok d zero peer cs w = (w, rw (zero_sub (length cs)) refl)
  unchoke_candidates_ok d (suc n) peer [] w = (w, rw (sub_zero (suc n)) refl)
  unchoke_candidates_ok d (suc n) peer (c ∷ cs) w =
      let taken = choose_candidate-Taken d peer (length cs) (c ∷ cs) refl in
      let ih = unchoke_candidates_ok (suc d) n taken.0 taken.1 (opt_unchoke taken.0 w) in
      let same = taken.3.shorter in
      let left : n - length taken.1 ≡ suc n - suc (length cs) = omega (arith, same) in
      (ih.0, rw taken.2 (ih.1 ∙ ap (λ k. ok (k, ih.0)) left))

is_ok-keep_opt_unchoked : (n : ℕ) (ts : List ℕ) → is_ok (keep_opt_unchoked n ts) ≡ leb n (length ts)
unfolding keep_opt_unchoked
is_ok-keep_opt_unchoked zero ts = ground arith
is_ok-keep_opt_unchoked (suc n) [] = ground arith
is_ok-keep_opt_unchoked (suc n) (t ∷ ts) = is_ok-keep_opt_unchoked n ts ∙ ground arith

pub is_ok-rotate :
    (newly : ℕ → Bool) (intrand : ℕ → ℕ → ℕ) (w : Wire)
    → ((d n : ℕ) → 0 < n → intrand d n < n)
    → is_ok (rotate newly intrand w)
      ≡ leb w.opt_unchocked_peers (length (candidates_vector w) + length (opt_unchoked w))
unfolding rotate
is_ok-rotate newly intrand w in_range =
    let n = w.opt_unchocked_peers in
    let cs = candidates_vector w in
    let os = opt_unchoked w in
    let done = unchoke_candidates_ok newly intrand in_range 0 n (last_peer 0 w.peers) cs w in
    let last = is_ok-keep_opt_unchoked (n - length cs) os in
    rw done.1 (
      is_ok->>= (keep_opt_unchoked (n - length cs) os) (λ ts. choke_all ts done.0)
      ∙ last
      ∙ moved n (length cs) (length os))
  where
    is_ok->>= : {A B : Type 0} (r : Result A) (f : A → B) → is_ok (r >>= λ x. ok (f x)) ≡ is_ok r
    is_ok->>= (fault e) f = refl
    is_ok->>= (ok x) f = refl

    moved : (n c o : ℕ) → leb (n - c) o ≡ leb n (c + o)
    moved n c o = ground arith

-- With random numbers below their bound, the optimistic unchoking fails exactly where there is a
-- candidate, but fewer candidates and optimistically unchoked peers, taken together, than there are
-- to be.
pub is_ok-optimistic_un_choking_algorithm :
    (newly : ℕ → Bool) (intrand : ℕ → ℕ → ℕ) (w : Wire)
    → ((d n : ℕ) → 0 < n → intrand d n < n)
    → is_ok (optimistic_un_choking_algorithm newly intrand w) ≡ (
        (length (candidates_vector w) == 0)
        || leb w.opt_unchocked_peers (length (candidates_vector w) + length (opt_unchoked w)))
unfolding optimistic_un_choking_algorithm
is_ok-optimistic_un_choking_algorithm newly intrand w in_range =
    by (candidates_vector w) (is_ok-rotate newly intrand w in_range)
  where
    by :
        (cs : List ℕ)
        → is_ok (rotate newly intrand w)
          ≡ leb w.opt_unchocked_peers (length cs + length (opt_unchoked w))
        → is_ok (elim cs [ [] ↦ ok w | _ ∷ _ ↦ rotate newly intrand w ])
          ≡ ((length cs == 0) || leb w.opt_unchocked_peers (length cs + length (opt_unchoked w)))
    by [] h = refl
    by (c ∷ cs) h = rw (suc_ne_zero (length cs)) h

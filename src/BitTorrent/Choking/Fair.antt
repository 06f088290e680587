-- ===== src/BitTorrent/Choking/Fair.antt =====
-- The choking algorithm prefers the faster peers.
use mathlib.Core.List.{append_assoc}
use mathlib.Core.Path.{subst}
use cplusplus_projects.Common.{
  and_true, ℕ, ◌+◌, ◌≤◌, ◌≡◌, refl, ap, sym, ◌∙◌, Bool, true, false, not, ◌&&◌, List, [], ◌∷◌, ◌++◌,
  if◌then◌else◌, arith, All, AllDistinct, count_if, sort_by, sort_by-AllDistinct, count_if-sort_by,
  All-sort_by, IsSorted, sort_by-IsSorted,
}
use cplusplus_projects.BitTorrent.Wire.{Handler, Wire}
use cplusplus_projects.BitTorrent.Choking.{
  Round, start_round, is_eligible, is_slower, is_faster, choke_step, choke_loop, choking_algorithm,
}
use cplusplus_projects.BitTorrent.Choking.Frame.{Untouched, head_facts, chokes, counts, decided}
use cplusplus_projects.BitTorrent.Choking.Bound.{Untouched-start}

-- The peer can be decided on and wants to download, and yet is choked afterwards.
abbrev pub is_refused : Wire → (ℕ → Handler) → ℕ → Bool
is_refused w after t =
    is_eligible w (w.threads t) && ((w.threads t).peer_interested && (after t).am_choking)

abbrev pub is_unchoked : (ℕ → Handler) → ℕ → Bool
is_unchoked after t = not (after t).am_choking

-- Each refused peer stands behind `limit` unchoked ones, with `n` in front of the list.
abbrev Behind : Wire → (ℕ → Handler) → ℕ → List ℕ → Type 0
Behind w after n [] = Unit
Behind w after n (t ∷ ts) =
    (is_refused w after t ≡ true → w.downloaders ≤ n)
    × Behind w after (n + (if is_unchoked after t then 1 else 0)) ts

loop-Behind :
    (w : Wire) (ts : List ℕ) (r : Round) (n : ℕ)
    → AllDistinct ts
    → Untouched w ts r
    → r.num_downloaders ≤ n
    → Behind w (choke_loop w ts r).threads n ts
unfolding choke_loop
loop-Behind w [] r n d u l = tt
loop-Behind w (t ∷ ts) r n d u l =
    let h = head_facts w t ts r d.0 u in
    let after = (choke_loop w (t ∷ ts) r).threads in
    (
      λ refused.
          let (eligible, rest) = and_true _ _ refused in
          let (interested, still) = and_true _ _ rest in
          let met = h.facts.met eligible interested (sym h.choking ∙ still) in
          omega (arith, met, l),
      loop-Behind w ts (choke_step w t r) (n + (if is_unchoked after t then 1 else 0)) d.1 h.rest
          (by (after t).am_choking (sym h.choking) h.facts.counted h.counted),
    )
  where
    by :
        (c : Bool)
        → chokes (decided w r t) (w.threads t).am_choking ≡ c
        → counts (decided w r t)
          ≤ (if chokes (decided w r t) (w.threads t).am_choking then 0 else 1)
        → (choke_step w t r).num_downloaders ≡ r.num_downloaders + counts (decided w r t)
        → (choke_step w t r).num_downloaders ≤ n + (if not c then 1 else 0)
    by true e f g = let f' = rw e at f in omega (arith, f', g, l)
    by false e f g = let f' = rw e at f in omega (arith, f', g, l)

-- The unchoked peers that are no slower than `t`.
abbrev pub is_preferred : Wire → (ℕ → Handler) → ℕ → ℕ → Bool
is_preferred w after t u = not (is_slower w u t) && is_unchoked after u

abbrev pub IsFair : Wire → (ℕ → Handler) → List ℕ → ℕ → Type 0
IsFair w after all t =
    is_refused w after t ≡ true → w.downloaders ≤ count_if (is_preferred w after t) all

pub count_if-append :
    (p : ℕ → Bool) (xs ys : List ℕ) → count_if p (xs ++ ys) ≡ count_if p xs + count_if p ys
count_if-append p [] ys = omega arith
count_if-append p (x ∷ xs) ys = omega (arith, count_if-append p xs ys)

-- In front of `t`, which no peer there is slower than, each unchoked peer is preferred.
preferred_front :
    (w : Wire) (after : ℕ → Handler) (t : ℕ) (xs ys : List ℕ)
    → IsSorted (is_faster w) (xs ++ t ∷ ys)
    → count_if (is_unchoked after) xs ≤ count_if (is_preferred w after t) xs
preferred_front w after t [] ys s = omega arith
preferred_front w after t (x ∷ xs) ys s =
    let ih = preferred_front w after t xs ys s.1 in
    let no_slower = front xs s.0 in rw no_slower (omega (arith, ih))
  where
    front :
        (zs : List ℕ) → All (λ y. is_faster w y x ≡ false) (zs ++ t ∷ ys) → is_slower w x t ≡ false
    front [] h = h.0
    front (z ∷ zs) h = front zs h.1

IsFair-from :
    (w : Wire) (after : ℕ → Handler) (all xs ts : List ℕ)
    → all ≡ xs ++ ts
    → IsSorted (is_faster w) all
    → Behind w after (count_if (is_unchoked after) xs) ts
    → All (IsFair w after all) ts
IsFair-from w after all xs [] e s b = tt
IsFair-from w after all xs (t ∷ ts) e s b =
    let front = preferred_front w after t xs ts (subst (IsSorted (is_faster w)) e s) in
    let total =
      ap (count_if (is_preferred w after t)) e
      ∙ count_if-append (is_preferred w after t) xs (t ∷ ts) in
    (
      λ refused. let met = b.0 refused in omega (arith, met, front, total),
      IsFair-from w after all (xs ++ t ∷ []) ts (e ∙ sym (append_assoc xs (t ∷ []) ts)) s (
          subst (λ n. Behind w after n ts)
            (omega (arith, count_if-append (is_unchoked after) xs (t ∷ []))) b.1),
    )

is_faster-asymmetric : (w : Wire) (t u : ℕ) → is_faster w t u ≡ true → is_faster w u t ≡ false
is_faster-asymmetric w t u h = ground (arith, h)

is_faster-transitive :
    (w : Wire) (t u v : ℕ)
    → is_faster w u t ≡ false
    → is_faster w v u ≡ false
    → is_faster w v t ≡ false
is_faster-transitive w t u v h k = ground (arith, h, k)

-- With distinct connections, every interested peer that the choking algorithm can decide on and
-- leaves choked has at least `downloaders` peers that are not slower than it and are unchoked
-- afterwards.
pub choking_algorithm-IsFair :
    (w : Wire) → AllDistinct w.peers → All (IsFair w (choking_algorithm w).threads w.peers) w.peers
unfolding choking_algorithm
choking_algorithm-IsFair w d =
    let ts = sort_by (is_faster w) w.peers in
    let after = (choke_loop w ts (start_round w)).threads in
    let sorted =
      sort_by-IsSorted (is_faster w) (is_faster-asymmetric w) (is_faster-transitive w) w.peers in
    let behind =
      loop-Behind w ts (start_round w) 0 (sort_by-AllDistinct (is_faster w) w.peers d)
        (Untouched-start w ts) (omega arith) in
    All-sort_by (is_faster w) (IsFair w after w.peers) w.peers
      (fair_all ts (IsFair-from w after ts [] ts refl sorted behind))
  where
    fair_all :
        (us : List ℕ)
        → All
            (IsFair w
              (choke_loop w (sort_by (is_faster w) w.peers) (start_round w)).threads
              (sort_by (is_faster w) w.peers))
            us
        → All
            (IsFair w
              (choke_loop w (sort_by (is_faster w) w.peers) (start_round w)).threads
              w.peers)
            us
    fair_all [] h = tt
    fair_all (u ∷ us) h = (
      λ refused. omega (
        arith,
        h.0 refused,
        count_if-sort_by (is_faster w)
            (is_preferred w (choke_loop w (sort_by (is_faster w) w.peers) (start_round w)).threads
              u)
            w.peers,
      ),
      fair_all us h.1,
    )

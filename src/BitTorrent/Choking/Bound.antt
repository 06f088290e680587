-- ===== src/BitTorrent/Choking/Bound.antt =====
-- The choking algorithm serves no more peers than there may be downloaders.
use cplusplus_projects.Common.{
  ℕ, ◌+◌, ◌≤◌, ◌≡◌, refl, sym, Bool, true, false, not, ◌&&◌, List, [], ◌∷◌, if◌then◌else◌, arith,
  All, AllDistinct, count_if, sort_by, sort_by-All, sort_by-AllDistinct, count_if-sort_by,
}
use cplusplus_projects.BitTorrent.Wire.{Handler, Wire}
use cplusplus_projects.BitTorrent.Choking.{
  Round, start_round, is_eligible, is_faster, choke_step, choke_loop, choking_algorithm,
}
use cplusplus_projects.BitTorrent.Choking.Frame.{
  Untouched, HeadFacts, head_facts, chokes, counts, decided,
}

-- Before the algorithm the peer can be decided on and wants to download; after it, it is unchoked.
abbrev pub is_served : Wire → (ℕ → Handler) → ℕ → Bool
is_served w after t =
    is_eligible w (w.threads t) && ((w.threads t).peer_interested && not (after t).am_choking)

abbrev pub NotOptimistic : Wire → ℕ → Type 0
NotOptimistic w t = (is_eligible w (w.threads t) && (w.threads t).optimistically_unchoked) ≡ false

served_le :
    (w : Wire) (t : ℕ) (ts : List ℕ) (r : Round)
    → HeadFacts w t ts r
    → (if is_served w (choke_loop w (t ∷ ts) r).threads t then 1 else 0) ≤ counts (decided w r t)
served_le w t ts r h =
    by (is_eligible w (w.threads t)) (w.threads t).peer_interested _ refl refl h.choking
  where
    by :
        (e i c : Bool)
        → is_eligible w (w.threads t) ≡ e
        → (w.threads t).peer_interested ≡ i
        → c ≡ chokes (decided w r t) (w.threads t).am_choking
        → (if e && (i && not c) then 1 else 0) ≤ counts (decided w r t)
    by true true false ee ei ec = let s = h.facts.served ee ei (sym ec) in omega (arith, s)
    by true true true ee ei ec = omega arith
    by true false c ee ei ec = omega arith
    by false i c ee ei ec = omega arith

loop_bound :
    (w : Wire) (ts : List ℕ) (r : Round)
    → AllDistinct ts
    → Untouched w ts r
    → All (NotOptimistic w) ts
    → r.num_downloaders ≤ w.downloaders
    → count_if (is_served w (choke_loop w ts r).threads) ts + r.num_downloaders ≤ w.downloaders
unfolding choke_loop
loop_bound w [] r d u o l = omega (arith, l)
loop_bound w (t ∷ ts) r d u o l =
    let h = head_facts w t ts r d.0 u in
    let within = h.facts.within o.0 l in
    let ih = loop_bound w ts (choke_step w t r) d.1 h.rest o.1 (omega (arith, within, h.counted)) in
    omega (arith, ih, served_le w t ts r h, h.counted)

pub Untouched-start : (w : Wire) (ts : List ℕ) → Untouched w ts (start_round w)
Untouched-start w [] = tt
Untouched-start w (t ∷ ts) = (refl, Untouched-start w ts)

-- With distinct connections, none of which can be decided on and is optimistically unchoked, the
-- choking algorithm leaves at most `downloaders` peers unchoked of those that it can decide on and
-- that are interested.
pub choking_algorithm-le-downloaders :
    (w : Wire)
    → AllDistinct w.peers
    → All (NotOptimistic w) w.peers
    → count_if (is_served w (choking_algorithm w).threads) w.peers ≤ w.downloaders
unfolding choking_algorithm
choking_algorithm-le-downloaders w d o =
    let ts = sort_by (is_faster w) w.peers in
    let bound =
      loop_bound w ts (start_round w) (sort_by-AllDistinct (is_faster w) w.peers d)
        (Untouched-start w ts) (sort_by-All (is_faster w) (NotOptimistic w) w.peers o)
        (omega arith) in
    omega (
      arith,
      bound,
      count_if-sort_by (is_faster w) (is_served w (choke_loop w ts (start_round w)).threads)
          w.peers,
    )

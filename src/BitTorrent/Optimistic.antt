-- ===== src/BitTorrent/Optimistic.antt =====
-- OptimisticUnChokingAlgorithm and chooseOptUnchokePeer of BitTorrent/BTPeerWireBase.cc.
-- An index into the vector of peers stands as its peer: `candidatesVector` and `optUnchoked` are
-- lists of threads, both in the order of the vector.
pub mod Enough
pub mod Marked
pub mod Count
use cplusplus_projects.Common.{
  ℕ, zero, suc, Bool, true, false, not, ◌&&◌, List, [], ◌∷◌, ◌++◌, ℤ, pos, negsuc, ◌+ℤ◌,
  if◌then◌else◌, length, filter, Result, ok, fault, bad_index, ◌>>=◌,
}
use cplusplus_projects.BitTorrent.Wire.{Handler, Wire, Message, set_thread, unchoked, choked}
use cplusplus_projects.BitTorrent.Choking.{is_eligible}

abbrev pub is_candidate_peer : (ℕ → Bool) → (ℕ → Handler) → ℕ → Bool
is_candidate_peer eligible threads t = eligible t && (threads t).am_choking

abbrev pub is_opt_unchoked : (ℕ → Bool) → (ℕ → Handler) → ℕ → Bool
is_opt_unchoked eligible threads t =
    eligible t && (not (threads t).am_choking && (threads t).optimistically_unchoked)

abbrev pub eligible_of : Wire → ℕ → Bool
eligible_of w t = is_eligible w (w.threads t)

abbrev pub candidates_vector : Wire → List ℕ
candidates_vector w = filter (is_candidate_peer (eligible_of w) w.threads) w.peers

abbrev pub opt_unchoked : Wire → List ℕ
opt_unchoked w = filter (is_opt_unchoked (eligible_of w) w.threads) w.peers

-- setOptimisticallyUnchoked(true), then timerExpired for UNCHOKE_TIMER.
abbrev pub opt_unchoke : ℕ → Wire → Wire
opt_unchoke t w = record w {
  threads =
      set_thread t (unchoked w.now (record (w.threads t) { optimistically_unchoked = true }))
        w.threads;
  sent = w.sent ++ (t, Message.unchoke) ∷ [];
}

-- setOptimisticallyUnchoked(false), then timerExpired for CHOKE_TIMER.
abbrev pub opt_choke : ℕ → Wire → Wire
opt_choke t w = record w {
  threads =
      set_thread t (choked w.now (record (w.threads t) { optimistically_unchoked = false }))
        w.threads;
  sent = w.sent ++ (t, Message.choke) ∷ [];
}

-- The candidate at an index, and the vector once it is erased.
unfoldable pub take_out : ℕ → List ℕ → Result (ℕ × List ℕ)
take_out i [] = fault bad_index
take_out zero (c ∷ cs) = ok (c, cs)
take_out (suc i) (c ∷ cs) = do found ← take_out i cs; ok (found.0, c ∷ found.1)

-- Of a negative index `peer` stays what it was.
unfoldable pub choose_candidate : ℤ → ℕ → List ℕ → Result (ℕ × List ℕ)
choose_candidate (pos i) peer cs = take_out i cs
choose_candidate (negsuc i) peer cs = ok (peer, cs)

-- `newly d`: the d-th dblrand() is at most the probability; `intrand d n`: the d-th intrand(n).
module _ (newly : ℕ → Bool) (intrand : ℕ → ℕ → ℕ) where
  abbrev pub choose_opt_unchoke_peer : ℕ → ℕ → ℤ
  choose_opt_unchoke_peer d n = if newly d then pos n +ℤ negsuc 0 else pos (intrand d n)

  -- The loop that unchokes, with `n` peers left to unchoke; how many are left after it.
  unfoldable pub unchoke_candidates : ℕ → ℕ → ℕ → List ℕ → Wire → Result (ℕ × Wire)
  unchoke_candidates d zero peer cs w = ok (0, w)
  unchoke_candidates d (suc n) peer [] w = ok (suc n, w)
  unchoke_candidates d (suc n) peer (c ∷ cs) w = do
    found ← choose_candidate (choose_opt_unchoke_peer d (length (c ∷ cs))) peer (c ∷ cs)
    unchoke_candidates (suc d) n found.0 found.1 (opt_unchoke found.0 w)

-- The loop that keeps `n` peers optimistically unchoked. It erases begin() of an empty set too.
unfoldable pub keep_opt_unchoked : ℕ → List ℕ → Result (List ℕ)
keep_opt_unchoked zero ts = ok ts
keep_opt_unchoked (suc n) [] = fault bad_index
keep_opt_unchoked (suc n) (t ∷ ts) = keep_opt_unchoked n ts

unfoldable pub choke_all : List ℕ → Wire → Wire
choke_all [] w = w
choke_all (t ∷ ts) w = choke_all ts (opt_choke t w)

-- The last peer of the vector, where the loop over it leaves `peer`.
abbrev pub last_peer : ℕ → List ℕ → ℕ
last_peer p [] = p
last_peer p (t ∷ ts) = last_peer t ts

module _ (newly : ℕ → Bool) (intrand : ℕ → ℕ → ℕ) where
  unfoldable pub rotate : Wire → Result Wire
  rotate w = do
    done ←
        unchoke_candidates newly intrand 0 w.opt_unchocked_peers (last_peer 0 w.peers)
          (candidates_vector w) w
    rest ← keep_opt_unchoked done.0 (opt_unchoked w)
    ok (choke_all rest done.1)

  unfoldable pub optimistic_un_choking_algorithm : Wire → Result Wire
  optimistic_un_choking_algorithm w = elim (candidates_vector w) [ [] ↦ ok w | _ ∷ _ ↦ rotate w ]

-- ===== src/BitTorrent/Choking.antt =====
-- ChokingAlgorithm and chokeWorstDownloader of BitTorrent/BTPeerWireBase.cc.
pub mod Frame
pub mod Bound
pub mod Fair
pub mod Worst
use cplusplus_projects.Common.{
  ℕ, suc, ◌≡◌, Bool, true, false, not, ◌&&◌, ◌||◌, List, [], ◌∷◌, ◌++◌, Option, none, some, ℤ, pos,
  ◌+ℤ◌, ltb_ℤ, leb_ℤ, ◌==ℤ◌, ltb, ◌==◌, if◌then◌else◌, sort_by,
}
use cplusplus_projects.BitTorrent.Wire.{
  Handler, Wire, Message, rank, set_thread, get_download_rate, unchoked, choked,
}

-- Established, not a seeder, and the last decision is no more recent than the interval.
abbrev pub is_eligible : Wire → Handler → Bool
is_eligible w h = not (
    ltb (rank h.state) 9
    || (h.is_seeder
        || (ltb_ℤ w.now (h.last_choke_unchoke +ℤ w.chocking_interval)
            && not (h.last_choke_unchoke ==ℤ pos 0))))

-- The branches of the loop's body.
pub data Decision : Type 0 where
  skip unchoke_downloader refuse unchoke_for_rate leave choke_it keep : Decision

-- By: eligible, choked by us, interested in us, optimistically unchoked, faster than the minimum;
-- the downloaders counted so far, and their maximum.
unfoldable pub branch : Bool → Bool → Bool → Bool → Bool → ℕ → ℕ → Decision
branch false choking interested opt fast n limit = skip
branch true true true opt fast n limit = if ltb n limit then unchoke_downloader else refuse
branch true true false opt fast n limit = if fast then unchoke_for_rate else leave
branch true false interested opt fast n limit = if (n == limit) && not opt then choke_it else keep

unfoldable pub decide : Wire → ℕ → ℤ → Handler → Decision
decide w n min_rate h =
    branch (is_eligible w h) h.am_choking h.peer_interested h.optimistically_unchoked
      (ltb_ℤ min_rate (get_download_rate w.state h)) n w.downloaders

-- The variables of the loop.
pub record Round : Type 0 where
  pub threads : ℕ → Handler
  pub num_downloaders : ℕ
  pub min_rate : ℤ
  pub sent : List (ℕ × Message)

abbrev pub round_unchoke : Wire → ℕ → Round → Round
round_unchoke w t r = record r {
  threads = set_thread t (unchoked w.now (r.threads t)) r.threads;
  sent = r.sent ++ (t, Message.unchoke) ∷ [];
}

abbrev pub lower : ℤ → ℤ → ℤ
lower rate min_rate = if leb_ℤ rate min_rate then rate else min_rate

unfoldable pub act : Wire → ℕ → Decision → Round → Round
act w t skip r = r
act w t unchoke_downloader r = record (round_unchoke w t r) {
  num_downloaders = suc r.num_downloaders;
  min_rate = lower (get_download_rate w.state (r.threads t)) r.min_rate;
}
act w t refuse r = r
act w t unchoke_for_rate r = round_unchoke w t r
act w t leave r = r
act w t choke_it r = record r {
  threads = set_thread t (choked w.now (r.threads t)) r.threads;
  sent = r.sent ++ (t, Message.choke) ∷ [];
}
act w t keep r = record r { num_downloaders = suc r.num_downloaders }

unfoldable pub choke_step : Wire → ℕ → Round → Round
choke_step w t r = act w t (decide w r.num_downloaders r.min_rate (r.threads t)) r

unfoldable pub choke_loop : Wire → List ℕ → Round → Round
choke_loop w [] r = r
choke_loop w (t ∷ ts) r = choke_loop w ts (choke_step w t r)

-- operator< of PeerEntry.
abbrev pub is_slower : Wire → ℕ → ℕ → Bool
is_slower w t u =
    ltb_ℤ (get_download_rate w.state (w.threads t)) (get_download_rate w.state (w.threads u))

abbrev pub is_faster : Wire → ℕ → ℕ → Bool
is_faster w t u = is_slower w u t

abbrev pub start_round : Wire → Round
start_round w = record {
  threads = w.threads;
  num_downloaders = 0;
  min_rate = w.min_downloader_rate;
  sent = w.sent;
}

-- The fastest peers first.
unfoldable pub choking_algorithm : Wire → Wire
choking_algorithm w =
    let r = choke_loop w (sort_by (is_faster w) w.peers) (start_round w) in
    record w { threads = r.threads; min_downloader_rate = r.min_rate; sent = r.sent }

-- Connected, and not choked by us.
abbrev pub is_downloader : Wire → ℕ → Bool
is_downloader w t = not (ltb (rank (w.threads t).state) 4) && not (w.threads t).am_choking

-- The loop of chokeWorstDownloader, after `n` downloaders: which peer is choked, if any.
unfoldable pub find_worst : Wire → ℕ → List ℕ → Option ℕ
find_worst w n [] = none
find_worst w n (t ∷ ts) = elim (is_downloader w t) [
  | false ↦ find_worst w n ts
  | true ↦ elim (suc n == w.downloaders) [ true ↦ some t | false ↦ find_worst w (suc n) ts ]
]

-- The slowest peers first.
unfoldable pub choke_worst_downloader : Wire → Wire
choke_worst_downloader w = elim (find_worst w 0 (sort_by (is_slower w) w.peers)) [
  | none ↦ w
  | some t ↦ record w {
    threads = set_thread t (choked w.now (w.threads t)) w.threads;
    sent = w.sent ++ (t, Message.choke) ∷ [];
  }
]

-- ===== src/BitTorrent/Choking/Worst.antt =====
-- Which peer chokeWorstDownloader chokes.
use mathlib.Core.Path.{subst}
use cplusplus_projects.Common.{
  ℕ, suc, ◌+◌, ◌≤◌, ◌<◌, ◌≡◌, ◌≢◌, ◌⊎◌, inl, inr, refl, ap, sym, Bool, true, false, not, ◌&&◌, List,
  [], ◌∷◌, ◌++◌, none, some, ◌==◌, Bool-cases, Option-cases, some_inj, arith, All, count_if,
  sort_by, count_if-sort_by, IsSorted, sort_by-IsSorted, sort_by-All, IsIn, IsIn-self,
}
use cplusplus_projects.BitTorrent.Wire.{Wire, Message, set_thread, choked}
use cplusplus_projects.BitTorrent.Choking.{
  is_slower, is_downloader, find_worst, choke_worst_downloader,
}
use cplusplus_projects.BitTorrent.Choking.Frame.{set_thread_self, set_thread_ne}

-- `t` is the downloader that fills the number of downloaders, with `n` before the list.
record Filled (w : Wire) (n : ℕ) (ts : List ℕ) (t : ℕ) : Type 0 where
  before : List ℕ
  behind : List ℕ
  split : ts ≡ before ++ t ∷ behind
  downloading : is_downloader w t ≡ true
  number : n + count_if (is_downloader w) before + 1 ≡ w.downloaders

find_worst-Filled :
    (w : Wire) (n : ℕ) (ts : List ℕ) (t : ℕ) → find_worst w n ts ≡ some t → Filled w n ts t
unfolding find_worst
find_worst-Filled w n [] t e = cc
find_worst-Filled w n (u ∷ ts) t e = elim (Bool-cases (is_downloader w u)) [
  | inr other ↦
      let e' : find_worst w n ts ≡ some t = rw (other, find_worst) at e in
      let f = find_worst-Filled w n ts t e' in
      record {
        before = u ∷ f.before;
        behind = f.behind;
        split = ap (◌∷◌ u) f.split;
        downloading = f.downloading;
        number = rw other (omega (arith, f.number));
      }
  | inl busy ↦ elim (Bool-cases (suc n == w.downloaders)) [
    | inl full ↦
        let e' : some u ≡ some t = rw (busy, full, find_worst) at e in
        let same : u ≡ t = some_inj e' in
        record {
          before = [];
          behind = ts;
          split = ap (λ v. v ∷ ts) same;
          downloading = subst (λ v. is_downloader w v ≡ true) same busy;
          number = ground (arith, full);
        }
    | inr room ↦
        let e' : find_worst w (suc n) ts ≡ some t = rw (busy, room, find_worst) at e in
        let f = find_worst-Filled w (suc n) ts t e' in
        record {
          before = u ∷ f.before;
          behind = f.behind;
          split = ap (◌∷◌ u) f.split;
          downloading = f.downloading;
          number = rw busy (omega (arith, f.number));
        }
  ]
]

find_worst-none :
    (w : Wire) (n : ℕ) (ts : List ℕ)
    → n < w.downloaders
    → find_worst w n ts ≡ none
    → n + count_if (is_downloader w) ts < w.downloaders
unfolding find_worst
find_worst-none w n [] l e = omega (arith, l)
find_worst-none w n (u ∷ ts) l e = elim (Bool-cases (is_downloader w u)) [
  | inr other ↦
      rw other
        (let ih = find_worst-none w n ts l (rw (other, find_worst) at e) in omega (arith, ih))
  | inl busy ↦ elim (Bool-cases (suc n == w.downloaders)) [
    | inl full ↦ absurd (let e' : some u ≡ none = rw (busy, full, find_worst) at e in cc)
    | inr room ↦
        let ih =
          find_worst-none w (suc n) ts (ground (arith, room, l))
            (rw (busy, room, find_worst) at e) in
        rw busy (omega (arith, ih))
  ]
]

-- The downloaders that are no faster than `t`.
abbrev pub is_worse : Wire → ℕ → ℕ → Bool
is_worse w t u = is_downloader w u && not (is_slower w t u)

-- The downloaders that are slower than `t`.
abbrev pub is_slow : Wire → ℕ → ℕ → Bool
is_slow w t u = is_downloader w u && is_slower w u t

-- No peer behind `t` is slower.
slow_behind :
    (w : Wire) (t : ℕ) (ys : List ℕ)
    → All (λ y. is_slower w y t ≡ false) ys
    → count_if (is_slow w t) ys ≡ 0
slow_behind w t [] h = refl
slow_behind w t (y ∷ ys) h = rw h.0 (ground (arith, slow_behind w t ys h.1))

slow_front :
    (w : Wire) (t : ℕ) (xs ys : List ℕ)
    → IsSorted (is_slower w) (xs ++ t ∷ ys)
    → count_if (is_slow w t) (xs ++ t ∷ ys) ≤ count_if (is_downloader w) xs
slow_front w t [] ys s =
    let itself : is_slower w t t ≡ false = ground arith in
    rw itself (ground (arith, slow_behind w t ys s.0))
slow_front w t (x ∷ xs) ys s = ground (arith, slow_front w t xs ys s.1)

IsIn-split :
    (w : Wire) (xs : List ℕ) (t : ℕ) (ys : List ℕ)
    → All (λ u. IsIn u w.peers) (xs ++ t ∷ ys)
    → IsIn t w.peers
IsIn-split w [] t ys h = h.0
IsIn-split w (x ∷ xs) t ys h = IsIn-split w xs t ys h.1

worse_front :
    (w : Wire) (t : ℕ) (xs ys : List ℕ)
    → IsSorted (is_slower w) (xs ++ t ∷ ys)
    → is_downloader w t ≡ true
    → count_if (is_downloader w) xs + 1 ≤ count_if (is_worse w t) (xs ++ t ∷ ys)
worse_front w t [] ys s d = rw d (rw (irreflexive t) (omega arith))
  where
    irreflexive : (v : ℕ) → is_slower w v v ≡ false
    irreflexive v = ground arith
worse_front w t (x ∷ xs) ys s d =
    let ih = worse_front w t xs ys s.1 d in
    let no_faster = front xs s.0 in rw no_faster (ground (arith, ih))
  where
    front :
        (zs : List ℕ) → All (λ y. is_slower w y x ≡ false) (zs ++ t ∷ ys) → is_slower w t x ≡ false
    front [] h = h.0
    front (z ∷ zs) h = front zs h.1

is_slower-asymmetric : (w : Wire) (t u : ℕ) → is_slower w t u ≡ true → is_slower w u t ≡ false
is_slower-asymmetric w t u h = ground (arith, h)

is_slower-transitive :
    (w : Wire) (t u v : ℕ)
    → is_slower w u t ≡ false
    → is_slower w v u ≡ false
    → is_slower w v t ≡ false
is_slower-transitive w t u v h k = ground (arith, h, k)

-- What is known of the wire afterwards.
abbrev pub WorstChoked : Wire → Wire → Type 0
WorstChoked w v =
    ((v ≡ w) × (count_if (is_downloader w) w.peers < w.downloaders))
    ⊎ ((t : ℕ) × IsIn t w.peers
        × (is_downloader w t ≡ true)
        × (count_if (is_slow w t) w.peers < w.downloaders)
        × (v.threads t ≡ choked w.now (w.threads t))
        × ((u : ℕ) → t ≢ u → v.threads u ≡ w.threads u)
        × (w.downloaders ≤ count_if (is_worse w t) w.peers))

after_none :
    (w : Wire)
    → find_worst w 0 (sort_by (is_slower w) w.peers) ≡ none
    → choke_worst_downloader w ≡ w
unfolding choke_worst_downloader
after_none w e = rw (e, choke_worst_downloader) refl

after_some :
    (w : Wire) (t : ℕ)
    → find_worst w 0 (sort_by (is_slower w) w.peers) ≡ some t
    → choke_worst_downloader w ≡ record w {
      threads = set_thread t (choked w.now (w.threads t)) w.threads;
      sent = w.sent ++ (t, Message.choke) ∷ [];
    }
unfolding choke_worst_downloader
after_some w t e = rw (e, choke_worst_downloader) refl

-- For a positive number of downloaders: if fewer of the connected peers are unchoked than that,
-- chokeWorstDownloader changes nothing. Otherwise it chokes one unchoked connected peer of the list
-- and leaves the other connections alone. Fewer than `downloaders` of the unchoked connected peers
-- are slower than it, and at least `downloaders`, itself included, are not faster.
pub choke_worst_downloader-WorstChoked :
    (w : Wire) → 0 < w.downloaders → WorstChoked w (choke_worst_downloader w)
choke_worst_downloader-WorstChoked w l =
    let ts = sort_by (is_slower w) w.peers in
    let sorted =
      sort_by-IsSorted (is_slower w) (is_slower-asymmetric w) (is_slower-transitive w) w.peers in
    elim (Option-cases (find_worst w 0 ts)) [
      | inl e ↦
          let fewer = find_worst-none w 0 ts l e in
          subst (WorstChoked w) (sym (after_none w e)) (
            inl (
              refl,
              omega (arith, fewer, count_if-sort_by (is_slower w) (is_downloader w) w.peers),
            ))
      | inr (t, e) ↦
          let f = find_worst-Filled w 0 ts t e in
          let worse =
            worse_front w t f.before f.behind (subst (IsSorted (is_slower w)) f.split sorted)
              f.downloading in
          let total = ap (count_if (is_worse w t)) f.split in
          let sorted' = subst (IsSorted (is_slower w)) f.split sorted in
          let slow = slow_front w t f.before f.behind sorted' in
          let slow_total = ap (count_if (is_slow w t)) f.split in
          let there =
            subst (All (λ u. IsIn u w.peers)) f.split
              (sort_by-All (is_slower w) (λ u. IsIn u w.peers) w.peers (IsIn-self w.peers)) in
          subst (WorstChoked w) (sym (after_some w t e)) (
            inr (
              t,
              IsIn-split w f.before t f.behind there,
              f.downloading,
              omega (
                arith,
                slow,
                slow_total,
                f.number,
                count_if-sort_by (is_slower w) (is_slow w t) w.peers,
              ),
              set_thread_self t _ w.threads,
              λ u ne. set_thread_ne t u _ w.threads ne,
              omega (
                arith,
                worse,
                total,
                f.number,
                count_if-sort_by (is_slower w) (is_worse w t) w.peers,
              ),
            ))
    ]

-- ===== src/BitTorrent/Optimistic/Marked.antt =====
-- How unchoking and choking a peer changes the number of those that are optimistically unchoked.
use mathlib.Core.Path.{subst}
use native.Mathlib.Decide.{ℕ_discrete}
use cplusplus_projects.Common.{
  ℕ, suc, ◌+◌, ◌≡◌, ◌≢◌, refl, sym, Bool, true, false, not, ◌&&◌, List, [], ◌∷◌, length, All,
  AllDistinct, count_if, arith, IsIn, All-zip, count_if_one_more,
}
use cplusplus_projects.BitTorrent.Wire.{Handler, Wire}
use cplusplus_projects.BitTorrent.Choking.Frame.{set_thread_self, set_thread_ne}
use cplusplus_projects.BitTorrent.Optimistic.{is_opt_unchoked, opt_unchoke, opt_choke, choke_all}

-- What the algorithm uses of a candidate.
pub record Candidate (eligible : ℕ → Bool) (ps : List ℕ) (threads : ℕ → Handler) (t : ℕ)
    : Type 0 where
  pub is_in : IsIn t ps
  pub passes : eligible t ≡ true
  pub choking : (threads t).am_choking ≡ true

-- How many of the peers are optimistically unchoked.
abbrev pub number : (ℕ → Bool) → List ℕ → Wire → ℕ
number eligible ps w = count_if (is_opt_unchoked eligible w.threads) ps

abbrev pub Marked : (ℕ → Bool) → Wire → ℕ → Type 0
Marked eligible w t = is_opt_unchoked eligible w.threads t ≡ true

module _ (eligible : ℕ → Bool) (ps : List ℕ) (distinct : AllDistinct ps) where
  not_choking_no :
      (w : Wire) (t : ℕ)
      → (w.threads t).am_choking ≡ true
      → is_opt_unchoked eligible w.threads t ≡ false
  not_choking_no w t h =
      by (eligible t) (w.threads t).am_choking (w.threads t).optimistically_unchoked h
    where
      by : (e c o : Bool) → c ≡ true → (e && (not c && o)) ≡ false
      by true true o h = refl
      by true false o h = cc
      by false c o h = refl

  opt_unchoke-Marked_self :
      (w : Wire) (c : ℕ) → eligible c ≡ true → Marked eligible (opt_unchoke c w) c
  opt_unchoke-Marked_self w c h = rw (h, set_thread_self c _ w.threads) refl

  pub opt_unchoke-Marked :
      (w : Wire) (c u : ℕ)
      → eligible c ≡ true
      → Marked eligible w u
      → Marked eligible (opt_unchoke c w) u
  opt_unchoke-Marked w c u h m = elim (ℕ_discrete c u) [
    | yes same ↦
        subst (λ x. Marked eligible (opt_unchoke c w) x) same (opt_unchoke-Marked_self w c h)
    | no other ↦ rw (set_thread_ne c u _ w.threads other) m
  ]

  pub opt_unchoke-number :
      (w : Wire) (c : ℕ)
      → Candidate eligible ps w.threads c
      → number eligible ps (opt_unchoke c w) ≡ suc (number eligible ps w)
  opt_unchoke-number w c h =
      count_if_one_more (is_opt_unchoked eligible w.threads)
        (is_opt_unchoked eligible (opt_unchoke c w).threads) c ps distinct h.is_in
        (λ u ne. rw (set_thread_ne c u _ w.threads ne) refl) (not_choking_no w c h.choking)
        (opt_unchoke-Marked_self w c h.passes)

  pub opt_unchoke-Candidate :
      (w : Wire) (c u : ℕ)
      → u ≢ c
      → Candidate eligible ps w.threads u
      → Candidate eligible ps (opt_unchoke c w).threads u
  opt_unchoke-Candidate w c u ne h = record {
    is_in = h.is_in;
    passes = h.passes;
    choking = rw (set_thread_ne c u _ w.threads (λ e. ne (sym e))) h.choking;
  }

  -- A peer that was optimistically unchoked is choked.
  opt_choke-number :
      (w : Wire) (t : ℕ)
      → IsIn t ps
      → Marked eligible w t
      → number eligible ps w ≡ suc (number eligible ps (opt_choke t w))
  opt_choke-number w t i m =
      count_if_one_more (is_opt_unchoked eligible (opt_choke t w).threads)
        (is_opt_unchoked eligible w.threads) t ps distinct i
        (λ u ne. rw (set_thread_ne t u _ w.threads ne) refl)
        (not_choking_no (opt_choke t w) t (rw (set_thread_self t _ w.threads) refl)) m

  pub choke_all-number :
      (ts : List ℕ) (w : Wire)
      → AllDistinct ts
      → All (λ t. IsIn t ps) ts
      → All (Marked eligible w) ts
      → number eligible ps (choke_all ts w) + length ts ≡ number eligible ps w
  unfolding choke_all
  choke_all-number [] w d i m = omega arith
  choke_all-number (t ∷ ts) w d i m =
      let one = opt_choke-number w t i.0 m.0 in
      let rest =
        All-zip (λ u. u ≢ t) (Marked eligible w) (Marked eligible (opt_choke t w)) ts
          (λ u ne k. rw (set_thread_ne t u _ w.threads (λ e. ne (sym e))) k) d.0 m.1 in
      let ih = choke_all-number ts (opt_choke t w) d.1 i.1 rest in omega (arith, one, ih)

-- ===== src/Uso/Sites.antt =====
-- The list of sites as `initialize` of SuperComUSO.cc numbers it, and the search at one of them.
use mathlib.Core.Path.{subst}
use cplusplus_projects.Common.{
  ℕ, suc, ◌+◌, ◌≡◌, refl, ap, sym, ◌∙◌, Bool, true, false, List, [], ◌∷◌, ◌++◌, pos, ◌≤ℤ◌, ◌==◌,
  leb, arith, ℤ, ◌<◌, ◌*ℤ◌, get_elem?-some, All, length, ok,
}
use cplusplus_projects.Rms.Numbered.{lookup_server-get}
use cplusplus_projects.Rms.Search.Picks.{count_suits}
use cplusplus_projects.Rms.Search.Outcome.{HasServers, search_servers_lem}
use cplusplus_projects.Uso.State.{
  RmsInfo, Client, Uso, lookup_rms, update_rms, lookup_client, set_servers, total_cores,
  search_rms_servers,
}

abbrev pub SitesNumbered : ℕ → List RmsInfo → Type 0
SitesNumbered k [] = Unit
SitesNumbered k (s ∷ xs) = (s.id ≡ k) × SitesNumbered (suc k) xs

-- As many sites as counted, with the IDs 0, 1, 2, …, each with its servers.
pub record HasSites (u : Uso) : Type 0 where
  pub numbered : SitesNumbered 0 u.rms_list
  pub counted : u.num_rms ≡ length u.rms_list
  pub served : All (λ s. HasServers s.rms) u.rms_list

lookup_rms_from :
    (k n : ℕ) (before : List RmsInfo) (s : RmsInfo) (rest : List RmsInfo)
    → SitesNumbered k (before ++ s ∷ rest)
    → n ≡ k + length before
    → lookup_rms (before ++ s ∷ rest) n ≡ ok s
unfolding lookup_rms
lookup_rms_from k n [] s rest h e = ground (arith, h.0, e)
lookup_rms_from k n (b ∷ before) s rest h e =
    ground (arith, h.0, e, lookup_rms_from (suc k) n before s rest h.1 (omega (arith, e)))

update_rms_from :
    (k n : ℕ) (before : List RmsInfo) (s : RmsInfo) (rest : List RmsInfo)
    → SitesNumbered k (before ++ s ∷ rest)
    → n ≡ k + length before
    → update_rms (before ++ s ∷ rest) n (set_servers s.rms.servers) ≡ ok (before ++ s ∷ rest)
unfolding update_rms
update_rms_from k n [] s rest h e =
    let same : (s.id == n) ≡ true = ground (arith, h.0, e) in rw (same, update_rms) refl
update_rms_from k n (b ∷ before) s rest h e =
    let other : (b.id == n) ≡ false = ground (arith, h.0, e) in
    rw (other, update_rms_from (suc k) n before s rest h.1 (omega (arith, e)), update_rms) refl

-- The job of client `c` finds its servers at the site.
abbrev pub finds_servers : Client → RmsInfo → Bool
finds_servers c s = leb c.nodes (count_suits c.need_memory c.cores s.rms.servers)

-- The first server of a site is there.
pub total_cores_at :
    (s : RmsInfo) → HasServers s.rms → 0 < s.rms.num_servers → (n : ℤ) × (total_cores s.rms ≡ ok n)
total_cores_at s h some_server =
    let (t, g) = get_elem?-some s.rms.servers 0 (omega (arith, some_server, h.counted)) in
    let e = lookup_server-get 0 0 0 s.rms.servers t h.numbered (omega arith) g in
    (t.num_cores *ℤ pos s.rms.num_servers, rw e refl)

module _ (P : RmsInfo → Type 0) where
  pub All-at :
      (before : List RmsInfo) (s : RmsInfo) (rest : List RmsInfo) → All P (before ++ s ∷ rest) → P s
  All-at [] s rest h = h.0
  All-at (b ∷ before) s rest h = All-at before s rest h.1

served_at :
    (before : List RmsInfo) (s : RmsInfo) (rest : List RmsInfo)
    → All (λ t. HasServers t.rms) (before ++ s ∷ rest)
    → HasServers s.rms
served_at [] s rest h = h.0
served_at (b ∷ before) s rest h = served_at before s rest h.1

module _ (u : Uso) (a : ℕ) (c : Client) (known : lookup_client u.clients a ≡ ok c)
    (cores : pos 0 ≤ℤ c.cores) (h : HasSites u) (before : List RmsInfo) (s : RmsInfo)
    (rest : List RmsInfo) (split : u.rms_list ≡ before ++ s ∷ rest) where
  pub lookup_rms_at : lookup_rms u.rms_list (length before) ≡ ok s
  lookup_rms_at =
      ap (λ xs. lookup_rms xs (length before)) split
      ∙ lookup_rms_from 0 (length before) before s rest (subst (SitesNumbered 0) split h.numbered)
          (omega arith)

  update_rms_at : update_rms u.rms_list (length before) (set_servers s.rms.servers) ≡ ok u.rms_list
  update_rms_at =
      ap (λ xs. update_rms xs (length before) (set_servers s.rms.servers)) split
      ∙ update_rms_from 0 (length before) before s rest (subst (SitesNumbered 0) split h.numbered)
          (omega arith)
      ∙ ap ok (sym split)

  -- The search at a site tells whether enough servers suit, and changes nothing.
  pub search_rms_servers_at : search_rms_servers (length before) a u ≡ ok (finds_servers c s, u)
  unfolding search_rms_servers
  search_rms_servers_at =
      let served = served_at before s rest (subst (All (λ t. HasServers t.rms)) split h.served) in
      let found = search_servers_lem s.rms c.nodes c.need_memory c.cores true served cores in
      rw (known, lookup_rms_at, found.1, update_rms_at) refl

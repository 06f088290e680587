-- ===== src/Rms/Search/Outcome.antt =====
-- searchServers as its callers see it.
use cplusplus_projects.Common.{
  ℕ, ◌≤◌, ◌≡◌, ◌≢◌, refl, ap, sym, ◌∙◌, Bool, true, ◌&&◌, List, [], ◌∷◌, ℤ, pos, ◌≤ℤ◌, ok, length,
  some, get_elem?, arith, leb, modify, All, get_elem?-modify_ne, get_elem?-modify_self, some_inj,
}
use mathlib.Core.Path.{subst}
use native.Mathlib.Decide.{ℕ_discrete}
use cplusplus_projects.Rms.State.{ServerState, Server, Rms, set_reserved}
use cplusplus_projects.Rms.Numbered.{Numbered}
use cplusplus_projects.Rms.Search.{suits, search_servers}
use cplusplus_projects.Rms.Search.Picks.{Picks, done, pick, count_suits, pick_servers-Selected}

-- The server list as `initialize` builds it.
pub record HasServers (r : Rms) : Type 0 where
  pub numbered : Numbered 0 r.servers
  pub counted : r.num_servers ≡ length r.servers

-- A number found stands for a server that suits the request.
abbrev pub Placed : ℤ → ℤ → List Server → ℤ → Type 0
Placed mem cores xs n =
    (p : ℕ) × (s : Server) × (n ≡ pos p) × (get_elem? xs p ≡ some s) × (suits mem cores s ≡ true)

abbrev pub Distinct : List ℤ → Type 0
Distinct [] = Unit
Distinct (n ∷ ns) = All (λ m. n ≢ m) ns × Distinct ns

-- With as many servers numbered as there are, and a number of cores that is not negative, the
-- search returns. It leaves the list of servers as it was, each reservation undone. It answers
-- `nodes` numbers, and clears `found` exactly when fewer than `nodes` servers suit the request.
-- When enough do, the numbers are those of a greedy selection: each time a server that suits with
-- the fewest free cores, an awake one among equals if there is one.
pub search_servers_lem :
    (r : Rms) (nodes : ℕ) (mem cores : ℤ) (found : Bool)
    → HasServers r
    → pos 0 ≤ℤ cores
    → (ns : List ℤ) × (search_servers r nodes mem cores found
        ≡ ok (record {
          numbers = ns;
          found = found && leb nodes (count_suits mem cores r.servers);
          servers = r.servers;
        }))
      × (length ns ≡ nodes)
      × (nodes ≤ count_suits mem cores r.servers → Picks mem cores r.servers ns)
unfolding search_servers
search_servers_lem r nodes mem cores found h nonneg =
    let s = pick_servers-Selected mem cores nonneg nodes ServerState.idle r.servers h.numbered in
    (s.numbers, rw (h.counted, s.result, s.restored found) refl, s.size, s.greedy)

module _ (mem cores : ℤ) where
  reserved_unsuited : (s : Server) → s.reserved ≡ true → suits mem cores s ≡ true → ⊥
  reserved_unsuited s r f = ground arith

  -- A server that suits after another was reserved is not that other, and suited before.
  suits-modify :
      (xs : List Server) (p q : ℕ) (s t : Server)
      → get_elem? xs p ≡ some s
      → get_elem? (modify xs p (set_reserved true)) q ≡ some t
      → suits mem cores t ≡ true
      → (p ≢ q) × (get_elem? xs q ≡ some t)
  suits-modify xs p q s t g h f = elim (ℕ_discrete p q) [
    | yes e ↦
        let h' : get_elem? (modify xs p (set_reserved true)) p ≡ some t =
          subst (λ j. get_elem? (modify xs p (set_reserved true)) j ≡ some t) (sym e) h in
        let same : set_reserved true s ≡ t =
          some_inj (sym (get_elem?-modify_self xs p (set_reserved true) g) ∙ h') in
        absurd (reserved_unsuited t (ap (λ (u : Server). u.reserved) (sym same)) f)
    | no ne ↦ (ne, sym (get_elem?-modify_ne xs p q (set_reserved true) ne) ∙ h)
  ]

  All-Placed-modify :
      (xs : List Server) (p : ℕ) (s : Server) (ns : List ℤ)
      → get_elem? xs p ≡ some s
      → All (Placed mem cores (modify xs p (set_reserved true))) ns
      → All (λ m. pos p ≢ m) ns × All (Placed mem cores xs) ns
  All-Placed-modify xs p s [] g a = (tt, tt)
  All-Placed-modify xs p s (n ∷ ns) g ((q, t, e, h, f), a) =
      let (ne, there) = suits-modify xs p q s t g h f in
      let (nes, rest) = All-Placed-modify xs p s ns g a in
      ((λ eq. ne (ground (arith, eq, e)), nes), ((q, t, e, there, f), rest))

  -- The servers of a greedy selection all suit the request, and no server is selected twice.
  pub Picks-Placed :
      (xs : List Server) (ns : List ℤ)
      → Picks mem cores xs ns
      → Distinct ns × All (Placed mem cores xs) ns
  Picks-Placed xs [] done = (tt, tt)
  Picks-Placed xs (_ ∷ ns) (pick p s g f b rest) =
      let (d, a) = Picks-Placed (modify xs p (set_reserved true)) ns rest in
      let (ne, a') = All-Placed-modify xs p s ns g a in ((ne, d), ((p, s, refl, g, f), a'))

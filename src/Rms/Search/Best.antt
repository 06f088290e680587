-- ===== src/Rms/Search/Best.antt =====
-- The inner loop of searchServers: which server it selects.
use mathlib.Core.Path.{subst}
use native.Mathlib.Decide.{dec_lt}
use cplusplus_projects.Common.{
  ℕ, zero, suc, ◌+◌, ◌<◌, eq_of_parts, ◌≢◌, some_inj, ◌≡◌, refl, sym, ◌∙◌, true, false, ◌⊎◌, inl,
  inr, List, ℤ, pos, ◌≤ℤ◌, ok, length, some, get_elem?, get_elem?-some, arith, Bool-cases,
}
use cplusplus_projects.Rms.State.{ServerState, Server, minus_one, is_asleep}
use cplusplus_projects.Rms.Numbered.{Numbered, lookup_server-get}
use cplusplus_projects.Rms.Search.{Candidate, available, suits, consider, scan, start_candidate}

-- A property of the servers before position `i` that suit the request.
abbrev pub Before : (Server → Type 0) → List Server → ℕ → Type 0
Before P xs i = (j : ℕ) (s : Server) → j < i → get_elem? xs j ≡ some s → P s

pub Before-suc :
    (P : Server → Type 0) (xs : List Server) (i : ℕ) (s : Server)
    → get_elem? xs i ≡ some s
    → P s
    → Before P xs i
    → Before P xs (suc i)
Before-suc P xs i s g p b j t l h = elim (dec_lt j i) [
  | yes less ↦ b j t less h
  | no more ↦ let e : j ≡ i = omega arith in subst P (some_inj (sym g ∙ (rw e at h))) p
]

-- `t` has the fewest free cores, and among equals it sleeps only if the other does.
abbrev pub Prefers : Server → Server → Type 0
Prefers t s =
    (available t ≤ℤ available s)
    × (available t ≡ available s → is_asleep t.state ≡ true → is_asleep s.state ≡ true)

pub record Chosen (mem cores : ℤ) (xs : List Server) (i : ℕ) (c : Candidate) : Type 0 where
  pub position : ℕ
  pub server : Server
  pub in_range : position < i
  pub stands : get_elem? xs position ≡ some server
  pub fits : suits mem cores server ≡ true
  pub number_eq : c.number ≡ pos position
  pub cores_eq : c.cores ≡ available server
  pub state_eq : c.state ≡ server.state
  pub best : Before (λ s. suits mem cores s ≡ true → Prefers server s) xs i

pub record Missed (mem cores : ℤ) (xs : List Server) (i : ℕ) (c : Candidate) : Type 0 where
  pub number_eq : c.number ≡ minus_one
  pub cores_eq : c.cores ≡ minus_one
  pub none_fits : Before (λ s. suits mem cores s ≡ false) xs i

abbrev pub Scanned : ℤ → ℤ → List Server → ℕ → Candidate → Type 0
Scanned mem cores xs i c = Chosen mem cores xs i c ⊎ Missed mem cores xs i c

-- What `consider` answers when the server suits.
abbrev Taken : ℕ → Server → Candidate → Candidate → Type 0
Taken i s c r =
    (r.number ≡ pos i)
    × (r.cores ≡ available s)
    × (r.state ≡ s.state)
    × ((c.cores ≡ minus_one)
        ⊎ ((available s ≤ℤ c.cores) × (available s ≡ c.cores → is_asleep c.state ≡ true)))

abbrev Kept : Server → Candidate → Candidate → Type 0
Kept s c r =
    (r ≡ c)
    × (c.cores ≢ minus_one)
    × (c.cores ≤ℤ available s)
    × (c.cores ≡ available s → is_asleep c.state ≡ false)

consider-suits :
    (mem cores : ℤ) (i : ℕ) (s : Server) (c : Candidate)
    → suits mem cores s ≡ true
    → Taken i s c (consider mem cores i s c) ⊎ Kept s c (consider mem cores i s c)
unfolding consider
consider-suits mem cores i s c h = ground arith

consider_unsuited :
    (mem cores : ℤ) (i : ℕ) (s : Server) (c : Candidate)
    → suits mem cores s ≡ false
    → consider mem cores i s c ≡ c
unfolding consider
consider_unsuited mem cores i s c h = rw h

-- A server that suits has at least as many free cores as asked, so never the sentinel.
available-ne-minus_one :
    (mem cores : ℤ) (s : Server)
    → pos 0 ≤ℤ cores
    → suits mem cores s ≡ true
    → available s ≢ minus_one
available-ne-minus_one mem cores s h f e = ground arith

Prefers-trans :
    (s t u : Server) (c : Candidate)
    → c.cores ≡ available t
    → c.state ≡ t.state
    → (available s ≤ℤ c.cores) × (available s ≡ c.cores → is_asleep c.state ≡ true)
    → Prefers t u
    → Prefers s u
Prefers-trans s t u c ec es (le, asleep) (le', asleep') = (
  ground arith,
  λ e a.
      asleep' (ground (arith, eq_of_parts (available s) (available t)))
        (ground (arith, asleep, eq_of_parts (available s) (available t))),
)

module _ (mem cores : ℤ) (xs : List Server) (nonneg : pos 0 ≤ℤ cores) where
  step-Taken :
      (i : ℕ) (s : Server) (c r : Candidate)
      → get_elem? xs i ≡ some s
      → suits mem cores s ≡ true
      → Taken i s c r
      → Scanned mem cores xs i c
      → Scanned mem cores xs (suc i) r
  step-Taken i s c r g f (n, k, st, why) (inl v) = inl (record {
    position = i;
    server = s;
    in_range = omega arith;
    stands = g;
    fits = f;
    number_eq = n;
    cores_eq = k;
    state_eq = st;
    best =
        Before-suc (λ u. suits mem cores u ≡ true → Prefers s u) xs i s g
          (λ _. (omega arith, λ _ a. a))
          (λ j u l h fu. elim why [
            | inl e ↦
                absurd
                  (available-ne-minus_one mem cores v.server nonneg v.fits (sym v.cores_eq ∙ e))
            | inr p ↦ Prefers-trans s v.server u c v.cores_eq v.state_eq p (v.best j u l h fu)
          ]);
  })
  step-Taken i s c r g f (n, k, st, why) (inr v) = inl (record {
    position = i;
    server = s;
    in_range = omega arith;
    stands = g;
    fits = f;
    number_eq = n;
    cores_eq = k;
    state_eq = st;
    best =
        Before-suc (λ u. suits mem cores u ≡ true → Prefers s u) xs i s g
          (λ _. (omega arith, λ _ a. a)) (λ j u l h fu. let no_fit = v.none_fits j u l h in cc);
  })

  step-Kept :
      (i : ℕ) (s : Server) (c r : Candidate)
      → get_elem? xs i ≡ some s
      → Kept s c r
      → Scanned mem cores xs i c
      → Scanned mem cores xs (suc i) r
  step-Kept i s c r g (e, ne, le, awake) (inl v) = rw e (
      inl (record {
        position = v.position;
        server = v.server;
        in_range = omega (arith, v.in_range);
        stands = v.stands;
        fits = v.fits;
        number_eq = v.number_eq;
        cores_eq = v.cores_eq;
        state_eq = v.state_eq;
        best =
            Before-suc (λ u. suits mem cores u ≡ true → Prefers v.server u) xs i s g
              (λ _.
                (ground (arith, v.cores_eq), λ e a. ground (arith, awake, v.state_eq, v.cores_eq)))
              v.best;
      }))
  step-Kept i s c r g (e, ne, le, awake) (inr v) = absurd (ne v.cores_eq)

  step_unsuited :
      (i : ℕ) (s : Server) (c : Candidate)
      → get_elem? xs i ≡ some s
      → suits mem cores s ≡ false
      → Scanned mem cores xs i c
      → Scanned mem cores xs (suc i) c
  step_unsuited i s c g f (inl v) = inl (record {
    position = v.position;
    server = v.server;
    in_range = omega (arith, v.in_range);
    stands = v.stands;
    fits = v.fits;
    number_eq = v.number_eq;
    cores_eq = v.cores_eq;
    state_eq = v.state_eq;
    best =
        Before-suc (λ u. suits mem cores u ≡ true → Prefers v.server u) xs i s g (λ fu. cc) v.best;
  })
  step_unsuited i s c g f (inr v) = inr (record {
    number_eq = v.number_eq;
    cores_eq = v.cores_eq;
    none_fits = Before-suc (λ u. suits mem cores u ≡ false) xs i s g f v.none_fits;
  })

  step-Scanned :
      (i : ℕ) (s : Server) (c : Candidate)
      → get_elem? xs i ≡ some s
      → Scanned mem cores xs i c
      → Scanned mem cores xs (suc i) (consider mem cores i s c)
  step-Scanned i s c g v = elim (Bool-cases (suits mem cores s)) [
    | inl f ↦ elim (consider-suits mem cores i s c f) [
      | inl taken ↦ step-Taken i s c _ g f taken v
      | inr kept ↦ step-Kept i s c _ g kept v
    ]
    | inr f ↦ rw (consider_unsuited mem cores i s c f) (step_unsuited i s c g f v)
  ]

  scan-Scanned :
      (n i : ℕ) (c : Candidate)
      → Numbered 0 xs
      → i + n ≡ length xs
      → Scanned mem cores xs i c
      → (r : Candidate) × (scan mem cores xs n i c ≡ ok r) × Scanned mem cores xs (length xs) r
  unfolding scan
  scan-Scanned zero i c w e v = let e' : i ≡ length xs = omega arith in (c, refl, rw (← e') v)
  scan-Scanned (suc n) i c w e v =
      let (s, g) = get_elem?-some xs i (omega arith) in
      rw (lookup_server-get 0 i i xs s w (omega arith) g)
        (scan-Scanned n (suc i) (consider mem cores i s c) w (omega arith) (step-Scanned i s c g v))

  -- The loop over all servers ends, at the candidate that the whole list prefers.
  pub scan_lem :
      (st : ServerState)
      → Numbered 0 xs
      → (r : Candidate) × (scan mem cores xs (length xs) 0 (start_candidate st) ≡ ok r)
        × Scanned mem cores xs (length xs) r
  scan_lem st w = scan-Scanned (length xs) 0 _ w (omega arith) (
      inr
        (record { number_eq = refl; cores_eq = refl; none_fits = λ j s l h. absurd (omega arith) }))

-- ===== src/Rms/Connect/Load.antt =====
-- The load of a server: the cores in use and the jobs. How updates act on all loads at once.
use cplusplus_projects.Common.{
  ℕ, suc, ◌≡◌, ◌≢◌, refl, sym, ap, false, List, [], ◌∷◌, map, ℤ, pos, ◌==ℤ◌, if◌then◌else◌, ◌<◌,
  ◌∙◌, ok_inj, ok, arith, Bool-cases, inl, inr, ==ℤ→eq, >>=-eq-ok,
}
use cplusplus_projects.Rms.State.{Job, Server, lookup_server, update_server}
use cplusplus_projects.Rms.Numbered.{Numbered}

pub record Load : Type 0 where
  pub id : ℕ
  pub num_cores : ℤ
  pub cores_in_use : ℤ
  pub jobs : List Job

abbrev pub load_of : Server → Load
load_of s = record {
  id = s.id;
  num_cores = s.num_cores;
  cores_in_use = s.cores_in_use;
  jobs = s.jobs;
}

abbrev pub loads : List Server → List Load
loads = map load_of

-- `g` at the load with number `n`.
abbrev pub at_number : ℤ → (Load → Load) → Load → Load
at_number n g l = if pos l.id ==ℤ n then g l else l

abbrev pub Known : List Server → ℤ → Type 0
Known xs n = (s : Server) × (lookup_server xs n ≡ ok s)

module _ (f : Server → Server) (keeps : (s : Server) → (f s).id ≡ s.id) where
  pub update_server_total :
      (xs : List Server) (n : ℤ) (s : Server)
      → lookup_server xs n ≡ ok s
      → (ys : List Server) × (update_server xs n f ≡ ok ys) × (lookup_server ys n ≡ ok (f s))
  unfolding lookup_server update_server
  update_server_total [] n s h = cc
  update_server_total (x ∷ xs) n s h = elim (Bool-cases (pos x.id ==ℤ n)) [
    | inl here ↦ (f x ∷ xs, rw here refl, ground (arith, keeps x))
    | inr on ↦
        let (ys, e, g) = update_server_total xs n s (rw on at h) in
        (x ∷ ys, rw (on, e) refl, rw on g)
  ]

  pub lookup_server-update_ne :
      (xs ys : List Server) (n m : ℤ)
      → update_server xs n f ≡ ok ys
      → n ≢ m
      → lookup_server ys m ≡ lookup_server xs m
  unfolding lookup_server update_server
  lookup_server-update_ne [] ys n m e ne = cc
  lookup_server-update_ne (x ∷ xs) ys n m e ne = elim (Bool-cases (pos x.id ==ℤ n)) [
    | inl here ↦
        let same : pos x.id ≡ n = ==ℤ→eq (pos x.id) n here in
        elim (Bool-cases (pos x.id ==ℤ m)) [
          | inl there ↦ absurd (ne (ground (arith, same, ==ℤ→eq (pos x.id) m there)))
          | inr off ↦ ground (arith, keeps x)
        ]
    | inr on ↦
        let (zs, u, v) = >>=-eq-ok (update_server xs n f) _ (rw on at e) in
        ground (arith, v, lookup_server-update_ne xs zs n m u ne)
  ]

  pub update_server-Numbered :
      (k : ℕ) (xs ys : List Server) (n : ℤ)
      → update_server xs n f ≡ ok ys
      → Numbered k xs
      → Numbered k ys
  unfolding update_server
  update_server-Numbered k [] ys n e h = cc
  update_server-Numbered k (x ∷ xs) ys n e h = elim (Bool-cases (pos x.id ==ℤ n)) [
    | inl here ↦ let e' : f x ∷ xs ≡ ys = ok_inj (rw here at e) in rw (← e') (keeps x ∙ h.0, h.1)
    | inr on ↦
        let (zs, u, v) = >>=-eq-ok (update_server xs n f) _ (rw on at e) in
        let e' : x ∷ zs ≡ ys = ok_inj v in
        rw (← e') (h.0, update_server-Numbered (suc k) xs zs n u h.1)
  ]

-- Numbers from `k` on lie above an earlier number.
at_number-above :
    (k i : ℕ) (n : ℤ) (g : Load → Load) (xs : List Server)
    → pos i ≡ n
    → i < k
    → Numbered k xs
    → map (at_number n g) (loads xs) ≡ loads xs
at_number-above k i n g [] e l h = refl
at_number-above k i n g (x ∷ xs) e l h =
    let off : (pos x.id ==ℤ n) ≡ false = ground (arith, h.0, e) in
    rw off (ap (◌∷◌ (load_of x)) (at_number-above (suc k) i n g xs e (omega arith) h.1))

module _ (f : Server → Server) (g : Load → Load)
    (acts : (s : Server) → load_of (f s) ≡ g (load_of s)) where
  -- An update of a server acts on the loads at its number alone.
  pub loads-update :
      (k : ℕ) (xs ys : List Server) (n : ℤ)
      → update_server xs n f ≡ ok ys
      → Numbered k xs
      → loads ys ≡ map (at_number n g) (loads xs)
  unfolding update_server
  loads-update k [] ys n e h = cc
  loads-update k (x ∷ xs) ys n e h = elim (Bool-cases (pos x.id ==ℤ n)) [
    | inl here ↦
        let e' : f x ∷ xs ≡ ys = ok_inj (rw here at e) in
        let same : pos x.id ≡ n = ==ℤ→eq (pos x.id) n here in
        rw (← e', here, acts x)
          (ap (◌∷◌ (g (load_of x)))
            (sym (at_number-above (suc k) x.id n g xs same (omega arith) h.1)))
    | inr on ↦
        let (zs, u, v) = >>=-eq-ok (update_server xs n f) _ (rw on at e) in
        let e' : x ∷ zs ≡ ys = ok_inj v in
        rw (← e', on) (ap (◌∷◌ (load_of x)) (loads-update (suc k) xs zs n u h.1))
  ]

-- An update that leaves the load alone changes no load.
pub loads-update_same :
    (f : Server → Server) (xs ys : List Server) (n : ℤ)
    → ((s : Server) → load_of (f s) ≡ load_of s)
    → update_server xs n f ≡ ok ys
    → loads ys ≡ loads xs
unfolding update_server
loads-update_same f [] ys n same e = cc
loads-update_same f (x ∷ xs) ys n same e = elim (Bool-cases (pos x.id ==ℤ n)) [
  | inl here ↦
      let e' : f x ∷ xs ≡ ys = ok_inj (rw here at e) in rw (← e') (ap (λ l. l ∷ loads xs) (same x))
  | inr on ↦
      let (zs, u, v) = >>=-eq-ok (update_server xs n f) _ (rw on at e) in
      let e' : x ∷ zs ≡ ys = ok_inj v in
      rw (← e') (ap (◌∷◌ (load_of x)) (loads-update_same f xs zs n same u))
]

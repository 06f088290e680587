-- ===== src/Rms/Search/Picks.antt =====
-- The outer loop of searchServers against a greedy selection without replacement.
use cplusplus_projects.Common.{
  ℕ, zero, suc, ◌<◌, ◌≤◌, ◌≡◌, refl, ap, ◌∙◌, Bool, true, false, ◌&&◌, inl, inr, List, [], ◌∷◌, ℤ,
  pos, ◌==ℤ◌, ◌≤ℤ◌, if◌then◌else◌, Result, Result-cases, >>=-eq-ok, ok, length, some, get_elem?,
  arith, Bool-cases, leb, modify, length-modify, some_inj,
}
use cplusplus_projects.Rms.State.{ServerState, Server, minus_one, update_server, set_reserved}
use cplusplus_projects.Rms.Numbered.{Numbered, update_server-modify, Numbered-modify}
use cplusplus_projects.Rms.Search.{
  Candidate, suits, scan, start_candidate, pick_servers, release_picked,
}
use cplusplus_projects.Rms.Search.Best.{Before, Prefers, Chosen, Missed, scan_lem}

-- How many servers suit a request.
abbrev pub count_suits : ℤ → ℤ → List Server → ℕ
count_suits mem cores [] = 0
count_suits mem cores (s ∷ xs) =
    let rest = count_suits mem cores xs in if suits mem cores s then suc rest else rest

-- The servers that a greedy selection takes: each suits the request, no other that suits and is
-- left is preferred to it, and it is reserved before the next is selected.
pub data Picks (mem cores : ℤ) : List Server → List ℤ → Type 0 where
  done : {xs : List Server} → Picks mem cores xs []
  pick :
      {xs : List Server} {ns : List ℤ} (p : ℕ) (s : Server)
      → get_elem? xs p ≡ some s
      → suits mem cores s ≡ true
      → Before (λ u. suits mem cores u ≡ true → Prefers s u) xs (length xs)
      → Picks mem cores (modify xs p (set_reserved true)) ns
      → Picks mem cores xs (pos p ∷ ns)

module _ (mem cores : ℤ) where
  count_suits-reserve :
      (xs : List Server) (p : ℕ) (s : Server)
      → get_elem? xs p ≡ some s
      → suits mem cores s ≡ true
      → count_suits mem cores xs ≡ suc (count_suits mem cores (modify xs p (set_reserved true)))
  count_suits-reserve [] p s g f = cc
  count_suits-reserve (x ∷ xs) zero s g f = ground (arith, some_inj g)
  count_suits-reserve (x ∷ xs) (suc p) s g f = ground (arith, count_suits-reserve xs p s g f)

  count_suits-none :
      (xs : List Server)
      → Before (λ s. suits mem cores s ≡ false) xs (length xs)
      → count_suits mem cores xs ≡ 0
  count_suits-none [] b = refl
  count_suits-none (x ∷ xs) b =
      rw (b 0 x (omega arith) refl) (count_suits-none xs (λ j s l h. b (suc j) s (omega arith) h))

unreserve_reserved :
    (xs : List Server) (p : ℕ) (s : Server)
    → get_elem? xs p ≡ some s
    → s.reserved ≡ false
    → modify (modify xs p (set_reserved true)) p (set_reserved false) ≡ xs
unreserve_reserved [] p s g f = refl
unreserve_reserved (x ∷ xs) zero s g f =
    let e : false ≡ x.reserved = ground (arith, some_inj g) in λ i. record x { reserved = e i } ∷ xs
unreserve_reserved (x ∷ xs) (suc p) s g f = ap (◌∷◌ x) (unreserve_reserved xs p s g f)

-- Releasing one server commutes with releasing others.
update_server-release :
    (xs ys : List Server) (n : ℤ) (p : ℕ)
    → update_server xs n (set_reserved false) ≡ ok ys
    → update_server (modify xs p (set_reserved false)) n (set_reserved false)
      ≡ ok (modify ys p (set_reserved false))
unfolding update_server
update_server-release [] ys n p e = cc
update_server-release (x ∷ xs) ys n zero e =
    elim (Result-cases (update_server xs n (set_reserved false))) [
      | inl (zs, u) ↦ ground (arith, u)
      | inr (f, u) ↦ ground (arith, u)
    ]
update_server-release (x ∷ xs) ys n (suc p) e =
    elim (Result-cases (update_server xs n (set_reserved false))) [
      | inl (zs, u) ↦ ground (arith, u, update_server-release xs zs n p u)
      | inr (f, u) ↦ ground (arith, u)
    ]

release_picked-commute :
    (ns : List ℤ) (found b : Bool) (xs ys : List Server) (p : ℕ)
    → release_picked ns found xs ≡ ok (b, ys)
    → release_picked ns found (modify xs p (set_reserved false))
      ≡ ok (b, modify ys p (set_reserved false))
unfolding release_picked
release_picked-commute [] found b xs ys p e = ground arith
release_picked-commute (n ∷ ns) found b xs ys p e = elim (Bool-cases (n ==ℤ minus_one)) [
  | inl missing ↦ rw missing (release_picked-commute ns false b xs ys p (rw missing at e))
  | inr there ↦
      let (zs, u, v) = >>=-eq-ok (update_server xs n (set_reserved false)) _ (rw there at e) in
      rw (there, update_server-release xs zs n p u) (release_picked-commute ns found b zs ys p v)
]

pos-ne-minus_one : (p : ℕ) → (pos p ==ℤ minus_one) ≡ false
pos-ne-minus_one p = ground arith

module _ (mem cores : ℤ) where
  pick_servers-found :
      (num k p : ℕ) (st : ServerState) (xs ys : List Server) (ns : List ℤ) (c : Candidate)
      → Numbered 0 xs
      → p < length xs
      → scan mem cores xs num 0 (start_candidate st) ≡ ok c
      → c.number ≡ pos p
      → pick_servers mem cores num k c.state (modify xs p (set_reserved true)) ≡ ok (ns, ys)
      → pick_servers mem cores num (suc k) st xs ≡ ok (pos p ∷ ns, ys)
  unfolding pick_servers
  pick_servers-found num k p st xs ys ns c w l e n r =
      rw
        (
          e,
          n,
          pos-ne-minus_one p,
          update_server-modify 0 p p xs (set_reserved true) w (omega arith) l,
        )
        (rw r)

  pick_servers-missing :
      (num k : ℕ) (st : ServerState) (xs ys : List Server) (ns : List ℤ) (c : Candidate)
      → scan mem cores xs num 0 (start_candidate st) ≡ ok c
      → c.number ≡ minus_one
      → pick_servers mem cores num k c.state xs ≡ ok (ns, ys)
      → pick_servers mem cores num (suc k) st xs ≡ ok (minus_one ∷ ns, ys)
  unfolding pick_servers
  pick_servers-missing num k st xs ys ns c e n r = rw (e, n, r) refl

-- What the two loops achieve: `k` servers are found exactly when as many suit, and releasing
-- restores the list.
pub record Selected (mem cores : ℤ) (k : ℕ) (xs : List Server) (r : Result (List ℤ × List Server))
    : Type 0 where
  pub numbers : List ℤ
  pub marked : List Server
  pub result : r ≡ ok (numbers, marked)
  pub size : length numbers ≡ k
  pub numbered : Numbered 0 marked
  pub same_length : length marked ≡ length xs
  pub restored :
      (found : Bool)
      → release_picked numbers found marked ≡ ok (found && leb k (count_suits mem cores xs), xs)
  pub greedy : k ≤ count_suits mem cores xs → Picks mem cores xs numbers

module _ (mem cores : ℤ) (nonneg : pos 0 ≤ℤ cores) where
  Selected-found :
      (k : ℕ) (st : ServerState) (xs : List Server) (c : Candidate)
      → Numbered 0 xs
      → scan mem cores xs (length xs) 0 (start_candidate st) ≡ ok c
      → (v : Chosen mem cores xs (length xs) c)
      → Selected mem cores k
          (modify xs v.position (set_reserved true))
          (pick_servers mem cores (length xs) k c.state (modify xs v.position (set_reserved true)))
      → Selected mem cores (suc k) xs (pick_servers mem cores (length xs) (suc k) st xs)
  unfolding release_picked
  Selected-found k st xs c w e v s = record {
    numbers = pos v.position ∷ s.numbers;
    marked = s.marked;
    result =
        pick_servers-found mem cores (length xs) k v.position st xs s.marked s.numbers c w
          v.in_range e v.number_eq s.result;
    size = ap suc s.size;
    numbered = s.numbered;
    same_length = s.same_length ∙ length-modify xs v.position (set_reserved true);
    restored = λ found.
        rw
          (
            pos-ne-minus_one v.position,
            update_server-modify 0 v.position v.position s.marked (set_reserved false) s.numbered
                (omega arith)
                (omega (
                  arith,
                  v.in_range,
                  s.same_length,
                  length-modify xs v.position (set_reserved true),
                )),
            release_picked-commute s.numbers found _ s.marked _ v.position (s.restored found),
            unreserve_reserved xs v.position v.server v.stands (ground (arith, v.fits)),
            count_suits-reserve mem cores xs v.position v.server v.stands v.fits,
          )
          (ground arith);
    greedy = λ h. pick v.position v.server v.stands v.fits v.best (
        s.greedy
          (omega (arith, count_suits-reserve mem cores xs v.position v.server v.stands v.fits)));
  }

  Selected-missing :
      (k : ℕ) (st : ServerState) (xs : List Server) (c : Candidate)
      → scan mem cores xs (length xs) 0 (start_candidate st) ≡ ok c
      → (v : Missed mem cores xs (length xs) c)
      → Selected mem cores k xs (pick_servers mem cores (length xs) k c.state xs)
      → Selected mem cores (suc k) xs (pick_servers mem cores (length xs) (suc k) st xs)
  unfolding release_picked
  Selected-missing k st xs c e v s =
      let none = count_suits-none mem cores xs v.none_fits in
      record {
        numbers = minus_one ∷ s.numbers;
        marked = s.marked;
        result =
            pick_servers-missing mem cores (length xs) k st xs s.marked s.numbers c e v.number_eq
              s.result;
        size = ap suc s.size;
        numbered = s.numbered;
        same_length = s.same_length;
        restored = λ found. ground (arith, s.restored false);
        greedy = λ h. absurd (omega arith);
      }

  pub pick_servers-Selected :
      (k : ℕ) (st : ServerState) (xs : List Server)
      → Numbered 0 xs
      → Selected mem cores k xs (pick_servers mem cores (length xs) k st xs)
  unfolding pick_servers release_picked
  pick_servers-Selected zero st xs w = record {
    numbers = [];
    marked = xs;
    result = refl;
    size = refl;
    numbered = w;
    same_length = refl;
    restored = λ found. ground arith;
    greedy = λ _. done;
  }
  pick_servers-Selected (suc k) st xs w =
      let (c, e, v) = scan_lem mem cores xs nonneg st w in
      elim v [
        | inl chosen ↦ Selected-found k st xs c w e chosen (
            rw (← length-modify xs chosen.position (set_reserved true)) (
              pick_servers-Selected k c.state (modify xs chosen.position (set_reserved true))
                (Numbered-modify 0 chosen.position xs (set_reserved true) (λ s. refl) w)))
        | inr missed ↦ Selected-missing k st xs c e missed (pick_servers-Selected k c.state xs w)
      ]

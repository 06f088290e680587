-- ===== src/BitTorrent/Requests/Found.antt =====
-- findRequest and removeRequest are about the first request for a block.
use mathlib.Core.List.{append-nil}
use cplusplus_projects.Common.{
  ℕ, suc, ◌+◌, ◌≡◌, ◌⊎◌, inl, inr, refl, ap, ◌∙◌, Bool, true, false, not, ◌&&◌, List, [], ◌∷◌, ◌++◌,
  none, some, ℤ, ==ℤ_refl, ltb, if◌then◌else◌, ok, fault, Fault, arith, All, length, Bool-cases,
  ok_inj,
}
use cplusplus_projects.BitTorrent.Requests.{
  RequestEntry, RequestState, is_request, find_request_from, find_request, erase_at, remove_request,
  checked, add_request,
}

module _ (i b : ℤ) where
  -- No request of the list is for block `b` of piece `i`.
  abbrev pub NoneOf : List RequestEntry → Type 0
  NoneOf es = All (λ e. is_request i b e ≡ false) es

  -- The first request for the block, with those before and behind it.
  pub record First (es : List RequestEntry) : Type 0 where
    pub before : List RequestEntry
    pub request : RequestEntry
    pub behind : List RequestEntry
    pub split : es ≡ before ++ request ∷ behind
    pub others : NoneOf before
    pub here : is_request i b request ≡ true

  find_request_from-NoneOf :
      (k : ℕ) (es : List RequestEntry) → NoneOf es → find_request_from i b k es ≡ none
  unfolding find_request_from
  find_request_from-NoneOf k [] h = refl
  find_request_from-NoneOf k (e ∷ es) h = rw h.0 (find_request_from-NoneOf (suc k) es h.1)

  find_request_from-First :
      (k : ℕ) (xs : List RequestEntry) (e : RequestEntry) (ys : List RequestEntry)
      → NoneOf xs
      → is_request i b e ≡ true
      → find_request_from i b k (xs ++ e ∷ ys) ≡ some (k + length xs)
  unfolding find_request_from
  find_request_from-First k [] e ys h t = rw t (ap some (omega arith))
  find_request_from-First k (x ∷ xs) e ys h t =
      rw h.0 (find_request_from-First (suc k) xs e ys h.1 t ∙ ap some (omega arith))

  erase_at-append :
      (xs : List RequestEntry) (e : RequestEntry) (ys : List RequestEntry)
      → erase_at (length xs) (xs ++ e ∷ ys) ≡ xs ++ ys
  unfolding erase_at
  erase_at-append [] e ys = refl
  erase_at-append (x ∷ xs) e ys = ap (◌∷◌ x) (erase_at-append xs e ys)

  find_request-First :
      (es : List RequestEntry) (f : First es) → find_request_from i b 0 es ≡ some (length f.before)
  find_request-First es f =
      ap (find_request_from i b 0) f.split
      ∙ find_request_from-First 0 f.before f.request f.behind f.others f.here
      ∙ ap some (omega arith)

  erase_at-First :
      (es : List RequestEntry) (f : First es) → erase_at (length f.before) es ≡ f.before ++ f.behind
  erase_at-First es f =
      ap (erase_at (length f.before)) f.split ∙ erase_at-append f.before f.request f.behind

  First-cases : (es : List RequestEntry) → First es ⊎ NoneOf es
  First-cases [] = inr tt
  First-cases (e ∷ es) = elim (Bool-cases (is_request i b e)) [
    | inl t ↦
        inl (record { before = []; request = e; behind = es; split = refl; others = tt; here = t })
    | inr f ↦ elim (First-cases es) [
      | inl s ↦ inl (record {
        before = e ∷ s.before;
        request = s.request;
        behind = s.behind;
        split = ap (◌∷◌ e) s.split;
        others = (f, s.others);
        here = s.here;
      })
      | inr n ↦ inr (f, n)
    ]
  ]

  -- removeRequest takes exactly the first request for the block out of the vector, the others stay
  -- in their order. If there is none, it fails when it is not silent and the vector is not empty,
  -- and otherwise changes nothing.
  pub remove_request_lem :
      (silently : Bool) (s : RequestState)
      → ((f : First s.request_vector) × (remove_request i b silently s
            ≡ ok (record s { request_vector = f.before ++ f.behind })))
        ⊎ (NoneOf s.request_vector
            × (remove_request i b silently s ≡ (
                if not silently && ltb 0 (length s.request_vector)
                then fault Fault.request_not_found
                else ok s)))
  unfolding remove_request find_request
  remove_request_lem silently s = elim (First-cases s.request_vector) [
    | inl f ↦ inl (
      f,
      rw (find_request-First s.request_vector f, remove_request)
          (ap (λ v. ok (record s { request_vector = v })) (erase_at-First s.request_vector f)),
    )
    | inr n ↦ inr (n, rw (find_request_from-NoneOf 0 s.request_vector n, remove_request) refl)
  ]

checked-eq : (s t : RequestState) → checked s ≡ ok t → s ≡ t
unfolding checked
checked-eq s t h = elim (Bool-cases (s.check_size && ltb s.max_size (length s.request_vector))) [
  | inl full ↦ absurd (let e = rw full at h in cc)
  | inr room ↦ ok_inj (rw room at h)
]

-- When no request for the block is pending and adding one succeeds, removing that request gives
-- back the state before.
pub remove_request-add_request :
    (e : RequestEntry) (silently : Bool) (s t : RequestState)
    → NoneOf e.index e.begin s.request_vector
    → add_request e s ≡ ok t
    → remove_request e.index e.begin silently t ≡ ok s
unfolding remove_request find_request add_request checked
remove_request-add_request e silently s t n h =
    let grown : RequestState = record s { request_vector = s.request_vector ++ e ∷ [] } in
    let same : grown ≡ t = checked-eq grown t h in
    let f : First e.index e.begin grown.request_vector = record {
      before = s.request_vector;
      request = e;
      behind = [];
      split = refl;
      others = n;
      here = ground (arith, ==ℤ_refl e.index, ==ℤ_refl e.begin);
    } in
    rw (← same) (
      rw (find_request-First e.index e.begin grown.request_vector f, remove_request)
        (ap (λ v. ok (record s { request_vector = v }))
          (erase_at-First e.index e.begin grown.request_vector f ∙ append-nil s.request_vector)))

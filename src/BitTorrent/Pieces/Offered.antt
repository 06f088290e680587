-- ===== src/BitTorrent/Pieces/Offered.antt =====
-- selectPiece chooses among the pieces that the other peer offers.
use cplusplus_projects.Common.{
  ℕ, suc, ◌≤◌, ◌<◌, ◌≡◌, ◌⊎◌, inl, inr, refl, ap, ◌∙◌, Bool, true, false, not, ◌&&◌, ◌||◌, List, [],
  ◌∷◌, if◌then◌else◌, Option, none, some, pos, Result, ok, fault, Fault, ◌>>=◌, arith, length, All,
  get_elem?, get_elem?-some, sort_by, sort_by-All, length-sort_by, All-get_elem?, count_if,
  count_if-sort_by, Bool-cases, ltb, lt→ltb, ltb_ℤ, ◌==◌, leb,
}
use cplusplus_projects.BitTorrent.BitField.{Piece, BitField, piece_at}
use cplusplus_projects.BitTorrent.Remote.{
  BlockItem, no_block, is_piece_available, is_piece_requested, have_piece,
}
use cplusplus_projects.BitTorrent.Pieces.{
  PieceFreqEntry, is_rarer, is_candidate, candidates, choose_index, choose_from, select_piece,
}
use cplusplus_projects.BitTorrent.Pieces.Rarest.{count-rarer}

-- The entry's piece is one of both bit fields.
abbrev pub InBoth : BitField → BitField → PieceFreqEntry → Type 0
InBoth here remote e = (e.index < length here.pieces) × (e.index < length remote.pieces)

piece_at_lt : (f : BitField) (i : ℕ) → i < length f.pieces → (p : Piece) × (piece_at f i ≡ ok p)
unfolding piece_at
piece_at_lt f i l =
    let (p, e) = get_elem?-some f.pieces i l in
    (p, ap (λ (o : Option Piece). elim o [ none ↦ fault Fault.bad_index | some q ↦ ok q ]) e)

-- The test on a piece `p` here and the same piece `q` there.
abbrev pub offers : Bool → Piece → Piece → PieceFreqEntry → Bool
offers true p q e = not q.available && p.available
offers false p q e =
    q.available
    && (not p.available && (not (e.frequency == 0) && not (ltb_ℤ (pos 0) p.requested_blocks)))

if_ok : (a b : Bool) → (if a then ok b else ok false) ≡ ok (a && b)
if_ok true b = refl
if_ok false b = refl

is_piece_available_lem :
    (f : BitField) (i : ℕ) (p : Piece)
    → piece_at f i ≡ ok p
    → is_piece_available f i ≡ ok p.available
unfolding is_piece_available
is_piece_available_lem f i p e = rw e refl

is_piece_requested_lem :
    (f : BitField) (i : ℕ) (p : Piece)
    → f.local ≡ true
    → piece_at f i ≡ ok p
    → is_piece_requested f i ≡ ok (ltb_ℤ (pos 0) p.requested_blocks)
unfolding is_piece_requested
is_piece_requested_lem f i p l e =
    ap
      (λ b.
        if b
        then (piece_at f i >>= λ q. ok (ltb_ℤ (pos 0) q.requested_blocks))
        else fault Fault.not_local)
      l
    ∙ rw e refl

-- What is known of an entry that was kept.
pub record Offer (here remote : BitField) (super : Bool) (e : PieceFreqEntry) : Type 0 where
  pub mine : Piece
  pub theirs : Piece
  pub mine_at : piece_at here e.index ≡ ok mine
  pub theirs_at : piece_at remote e.index ≡ ok theirs
  pub offered : offers super mine theirs e ≡ true

-- A test that was made, and passed.
abbrev pub holds : Result Bool → Bool
holds (ok b) = b
holds (fault e) = false

module _ (here remote : BitField) (is_local : here.local ≡ true) where
  is_candidate-offers :
      (super : Bool) (e : PieceFreqEntry) (p q : Piece)
      → piece_at here e.index ≡ ok p
      → piece_at remote e.index ≡ ok q
      → is_candidate here remote super e ≡ ok (offers super p q e)
  unfolding is_candidate
  is_candidate-offers true e p q ep eq =
      rw (is_piece_available_lem here e.index p ep, is_piece_available_lem remote e.index q eq)
        (if_ok (not q.available) p.available)
  is_candidate-offers false e p q ep eq =
      rw
        (
          is_piece_available_lem here e.index p ep,
          is_piece_available_lem remote e.index q eq,
          is_piece_requested_lem here e.index p is_local ep,
          if_ok (not (e.frequency == 0)) (not (ltb_ℤ (pos 0) p.requested_blocks)),
          if_ok (not p.available)
              (not (e.frequency == 0) && not (ltb_ℤ (pos 0) p.requested_blocks)),
        )
        (if_ok q.available _)

  -- The candidates are the entries of the list that the other peer offers.
  candidates_lem :
      (super : Bool) (fs : List PieceFreqEntry)
      → All (InBoth here remote) fs
      → (es : List PieceFreqEntry) × (candidates here remote super fs ≡ ok es)
        × All (Offer here remote super) es
        × (length es ≡ count_if (λ e. holds (is_candidate here remote super e)) fs)
  unfolding candidates
  candidates_lem super [] h = ([], refl, tt, refl)
  candidates_lem super (e ∷ fs) h =
      let (p, ep) = piece_at_lt here e.index h.0.0 in
      let (q, eq) = piece_at_lt remote e.index h.0.1 in
      let c = is_candidate-offers super e p q ep eq in
      let (es, rest, all, count) = candidates_lem super fs h.1 in
      elim (Bool-cases (offers super p q e)) [
        | inl t ↦ (
          e ∷ es,
          rw (c, rest, t) refl,
          (record { mine = p; theirs = q; mine_at = ep; theirs_at = eq; offered = t }, all),
          rw (c, t) (omega (arith, count)),
        )
        | inr f ↦ (es, rw (c, rest, f) refl, all, rw (c, f) (omega (arith, count)))
      ]

-- How many of the candidates the choice is among.
abbrev pub choice_size : BitField → ℕ → ℕ → ℕ
choice_size here rarest size = if not (have_piece here) || leb size rarest then size else rarest

choose_index-lt :
    (intrand : ℕ → ℕ) (here : BitField) (rarest size : ℕ)
    → ((n : ℕ) → 0 < n → intrand n < n)
    → 0 < rarest
    → 0 < size
    → (choose_index intrand here rarest size < choice_size here rarest size)
      × (choice_size here rarest size ≤ size)
choose_index-lt intrand here rarest size draw r s = ground (arith, draw size s, draw rarest r)

-- Known to be with fewer peers, or with as many and a lower index.
abbrev pub is_before : PieceFreqEntry → PieceFreqEntry → Bool
is_before a b = ltb a.frequency b.frequency || ((a.frequency == b.frequency) && ltb a.index b.index)

-- The entry is one of the list's.
abbrev pub Listed : List PieceFreqEntry → PieceFreqEntry → Type 0
Listed es e = (k : ℕ) × (get_elem? es k ≡ some e)

All-Listed : (es : List PieceFreqEntry) → All (Listed es) es
All-Listed [] = tt
All-Listed (e ∷ es) = ((0, refl), later es (All-Listed es))
  where
    later : (fs : List PieceFreqEntry) → All (Listed es) fs → All (Listed (e ∷ es)) fs
    later [] h = tt
    later (f ∷ fs) h = ((suc h.0.0, h.0.1), later fs h.1)

-- What selectPiece answers, with the candidates `es`.
abbrev pub Selected :
    BitField → BitField → Bool → ℕ → List PieceFreqEntry → Result BlockItem → Type 0
Selected here remote super rarest es answer =
    ((es ≡ []) × (answer ≡ ok no_block))
    ⊎ ((e : PieceFreqEntry) × (o : Offer here remote super e) × Listed es e
        × (answer ≡ ok (record { piece_index = pos e.index; block_index = o.mine.next_block }))
        × (count_if (λ c. is_before c e) es < choice_size here rarest (length es)))

choose_from_lem :
    (intrand : ℕ → ℕ) (here : BitField) (rarest : ℕ) (es : List PieceFreqEntry) (e : PieceFreqEntry)
    (p : Piece)
    → get_elem? (sort_by is_rarer es) (choose_index intrand here rarest (length es)) ≡ some e
    → piece_at here e.index ≡ ok p
    → choose_from intrand here rarest es
      ≡ ok (record { piece_index = pos e.index; block_index = p.next_block })
unfolding choose_from
choose_from_lem intrand here rarest es e p g m = rw (g, choose_from) (rw m refl)

choose_from-Selected :
    (intrand : ℕ → ℕ) (here remote : BitField) (super : Bool) (rarest : ℕ)
    (es : List PieceFreqEntry)
    → ((n : ℕ) → 0 < n → intrand n < n)
    → 0 < rarest
    → 0 < length es
    → All (Offer here remote super) es
    → Selected here remote super rarest es (choose_from intrand here rarest es)
choose_from-Selected intrand here remote super rarest es draw r s all =
    let k = choose_index intrand here rarest (length es) in
    let lt = choose_index-lt intrand here rarest (length es) draw r s in
    let (e, g) =
      get_elem?-some (sort_by is_rarer es) k (omega (arith, lt, length-sort_by is_rarer es)) in
    let o =
      All-get_elem? (Offer here remote super) (sort_by is_rarer es) k
        (sort_by-All is_rarer (Offer here remote super) es all) g in
    inr (
      e,
      o,
      All-get_elem? (Listed es) (sort_by is_rarer es) k
          (sort_by-All is_rarer (Listed es) es (All-Listed es)) g,
      choose_from_lem intrand here rarest es e o.mine g o.mine_at,
      omega (arith, lt, count-rarer es k e g, count_if-sort_by is_rarer (λ c. is_rarer c e) es),
    )

-- For a local bit field, piece frequencies of pieces that both bit fields have, a positive size of
-- the rarest list, and random numbers below their bound, selectPiece does not fault. If no piece
-- passes its test it answers the invalid block. Otherwise it answers the next block of one of the
-- entries that pass the test: the other side has it, it is missing here, some peer is known to have
-- it and none of its blocks is requested (in super-seed mode: it is here and missing there). Fewer
-- of the entries that pass are rarer than that entry than the choice is among: all of them before
-- the first piece is complete or when they fit into the rarest list, else the size of that list.
pub select_piece-Selected :
    (intrand : ℕ → ℕ) (here remote : BitField) (super : Bool) (rarest : ℕ)
    (fs : List PieceFreqEntry)
    → ((n : ℕ) → 0 < n → intrand n < n)
    → 0 < rarest
    → here.local ≡ true
    → All (InBoth here remote) fs
    → (es : List PieceFreqEntry) × (candidates here remote super fs ≡ ok es)
      × All (Offer here remote super) es
      × (length es ≡ count_if (λ e. holds (is_candidate here remote super e)) fs)
      × Selected here remote super rarest es (select_piece intrand here remote super rarest fs)
unfolding select_piece
select_piece-Selected intrand here remote super rarest fs draw r l h =
    let (es, c, all, n) = candidates_lem here remote l super fs h in
    (es, c, all, n, rw c (selected es all))
  where
    selected :
        (es : List PieceFreqEntry)
        → All (Offer here remote super) es
        → Selected here remote super rarest es
            (if ltb 0 (length es) then choose_from intrand here rarest es else ok no_block)
    selected [] all = inl (refl, refl)
    selected (e ∷ es) all =
        rw (lt→ltb 0 (suc (length es)) (omega arith))
          (choose_from-Selected intrand here remote super rarest (e ∷ es) draw r (omega arith) all)

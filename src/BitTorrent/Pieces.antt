-- ===== src/BitTorrent/Pieces.antt =====
-- PieceFreqState of BitTorrent/BTUtils.cc, the number of peers that have each piece, and selectPiece
-- of BitTorrent/BTPeerWireBase.cc. The random choice `intrand(n)` is a parameter, as are the numbers
-- that it gives.
pub mod Rarest
pub mod Offered
use cplusplus_projects.Common.{
  ℕ, zero, suc, ◌+◌, Bool, true, false, not, ◌&&◌, ◌||◌, List, [], ◌∷◌, ◌++◌, ℤ, pos, ltb, leb,
  ◌==◌, if◌then◌else◌, Result, ok, fault, Fault, ◌>>=◌, length, get_elem?, modify, none, some,
  sort_by,
}
use cplusplus_projects.BitTorrent.BitField.{Piece, BitField, piece_at}
use cplusplus_projects.BitTorrent.Remote.{
  BlockItem, no_block, is_piece_available, is_piece_requested, have_piece,
}

pub record PieceFreqEntry : Type 0 where
  pub index : ℕ
  pub frequency : ℕ

-- operator<
abbrev pub is_rarer : PieceFreqEntry → PieceFreqEntry → Bool
is_rarer a b = ltb a.frequency b.frequency || ((a.frequency == b.frequency) && ltb a.index b.index)

-- The entries that initializePieceFrequencies adds, from piece `i` on.
unfoldable pub new_frequencies : ℕ → ℕ → List PieceFreqEntry
new_frequencies i zero = []
new_frequencies i (suc n) = record { index = i; frequency = 0 } ∷ new_frequencies (suc i) n

unfoldable pub initialize_piece_frequencies : ℕ → List PieceFreqEntry → List PieceFreqEntry
initialize_piece_frequencies n fs = fs ++ new_frequencies 0 n

-- operator++
abbrev pub one_more_peer : PieceFreqEntry → PieceFreqEntry
one_more_peer e = record e { frequency = suc e.frequency }

-- `at` throws when there is no such piece.
unfoldable pub increase_piece_frequency : ℕ → List PieceFreqEntry → Result (List PieceFreqEntry)
increase_piece_frequency i fs = elim (get_elem? fs i) [
  | none ↦ fault Fault.bad_index
  | some e ↦ ok (modify fs i one_more_peer)
]

-- The loop of updatePieceFrequencies over the message's bits, from piece `i` on.
unfoldable pub update_from : ℕ → List Bool → List PieceFreqEntry → Result (List PieceFreqEntry)
update_from i [] fs = ok fs
update_from i (b ∷ bs) fs = do
  gs ← (if b then increase_piece_frequency i fs else ok fs)
  update_from (suc i) bs gs

unfoldable pub update_piece_frequencies :
    List Bool → List PieceFreqEntry → Result (List PieceFreqEntry)
update_piece_frequencies bits fs = update_from 0 bits fs

-- && of tests that may fail.
abbrev pub and_then : Result Bool → Result Bool → Result Bool
and_then a b = a >>= λ x. if x then b else ok false

abbrev pub negated : Result Bool → Result Bool
negated a = a >>= λ x. ok (not x)

-- The test of selectPiece on a piece, in super-seed mode the other way round.
unfoldable pub is_candidate : BitField → BitField → Bool → PieceFreqEntry → Result Bool
is_candidate here remote true e =
    and_then (negated (is_piece_available remote e.index)) (is_piece_available here e.index)
is_candidate here remote false e = and_then (is_piece_available remote e.index) (
    and_then (negated (is_piece_available here e.index))
      (and_then (ok (not (e.frequency == 0))) (negated (is_piece_requested here e.index))))

-- peerPieces.
unfoldable pub candidates :
    BitField → BitField → Bool → List PieceFreqEntry → Result (List PieceFreqEntry)
candidates here remote super [] = ok []
candidates here remote super (e ∷ es) = do
  keep ← is_candidate here remote super e
  rest ← candidates here remote super es
  ok (if keep then e ∷ rest else rest)

-- The number of the chosen entry: among all candidates before the first piece is complete or when
-- they are few, else among the rarest.
abbrev pub choose_index : (ℕ → ℕ) → BitField → ℕ → ℕ → ℕ
choose_index intrand here rarest_list_size size =
    if not (have_piece here) || leb size rarest_list_size
    then (if ltb 1 size then intrand size else 0)
    else intrand rarest_list_size

-- The chosen piece, and the block that follows in it.
unfoldable pub choose_from : (ℕ → ℕ) → BitField → ℕ → List PieceFreqEntry → Result BlockItem
choose_from intrand here rarest_list_size es =
    let k = choose_index intrand here rarest_list_size (length es) in
    elim (get_elem? (sort_by is_rarer es) k) [
      | none ↦ fault Fault.bad_index
      | some e ↦ piece_at here e.index >>= λ p.
          ok (record { piece_index = pos e.index; block_index = p.next_block })
    ]

unfoldable pub select_piece :
    (ℕ → ℕ) → BitField → BitField → Bool → ℕ → List PieceFreqEntry → Result BlockItem
select_piece intrand here remote super rarest_list_size fs = do
  es ← candidates here remote super fs
  if ltb 0 (length es) then choose_from intrand here rarest_list_size es else ok no_block

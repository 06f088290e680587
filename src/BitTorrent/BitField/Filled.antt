-- ===== src/BitTorrent/BitField/Filled.antt =====
-- What update does to the whole bit field when one piece becomes available at once.
use cplusplus_projects.Common.{
  ◌∙◌, ℕ, zero, suc, ◌≡◌, ◌<◌, refl, ap, inl, inr, Bool, true, false, List, [], ◌∷◌, Option, none,
  some, negsuc, Result, Fault, fault, ok, ◌>>=◌, arith, All, length, get_elem?, modify,
}
use cplusplus_projects.BitTorrent.BitField.{
  Piece, BitField, repeat, read, find_next_block, piece_at, fill_blocks, map_pieces, update_piece,
  filled_field, whole_piece,
}
use cplusplus_projects.BitTorrent.BitField.Next.{is_taken, AllTaken, Fits, find_next_block-IsNext}
use cplusplus_projects.BitTorrent.BitField.Kept.{Kept, IsConsistent, length-repeat}

read-repeat-true : (n i : ℕ) → i < n → read false (repeat n true) i ≡ true
unfolding repeat
read-repeat-true zero i l = absurd (omega (arith, l))
read-repeat-true (suc n) zero l = refl
read-repeat-true (suc n) (suc i) l = read-repeat-true n i (omega (arith, l))

fill_blocks-AllTaken : (blocks : ℕ) (p : Piece) → AllTaken (fill_blocks blocks p) blocks
fill_blocks-AllTaken blocks p j l = let r = read-repeat-true blocks j l in ground (arith, r)

-- findNextBlock finds nothing in a piece all of whose blocks are taken.
next-AllTaken :
    (beyond : Bool) (blocks : ℕ) (p : Piece)
    → Fits blocks p
    → AllTaken p blocks
    → find_next_block beyond blocks p ≡ negsuc 0
next-AllTaken beyond blocks p f all = elim (find_next_block-IsNext beyond blocks p f) [
  | inl none_left ↦ none_left.0
  | inr (i, e, l, free, before) ↦ absurd (let t : is_taken p i ≡ true = all i l in cc)
]

abbrev pub HasRequests : ℕ → Piece → Type 0
HasRequests blocks p = length p.requested ≡ blocks

fill_blocks-next :
    (beyond : Bool) (blocks : ℕ) (ps : List Piece)
    → All (HasRequests blocks) ps
    → All (λ p. find_next_block beyond blocks p ≡ negsuc 0) (map_pieces (fill_blocks blocks) ps)
unfolding map_pieces
fill_blocks-next beyond blocks [] h = tt
fill_blocks-next beyond blocks (p ∷ ps) h = (
  next-AllTaken beyond blocks (fill_blocks blocks p) (h.0, length-repeat blocks true)
      (fill_blocks-AllTaken blocks p),
  fill_blocks-next beyond blocks ps h.1,
)

module _ (blocks : ℕ) (f : Piece → Piece) (same : (p : Piece) → (f p).requested ≡ p.requested) where
  modify-HasRequests :
      (ps : List Piece) (i : ℕ)
      → All (IsConsistent blocks) ps
      → All (HasRequests blocks) (modify ps i f)
  modify-HasRequests [] i h = tt
  modify-HasRequests (p ∷ ps) zero h = (ap length (same p) ∙ h.0.fits.0, rest ps h.1)
    where
      rest : (qs : List Piece) → All (IsConsistent blocks) qs → All (HasRequests blocks) qs
      rest [] k = tt
      rest (q ∷ qs) k = (k.0.fits.0, rest qs k.1)
  modify-HasRequests (p ∷ ps) (suc i) h = (h.0.fits.0, modify-HasRequests ps i h.1)

-- In a local bit field in which the next block of every piece is the first that is neither
-- requested nor available, update with the index of one whole piece succeeds, and after it
-- findNextBlock answers -1 for every piece of the bit field, not for that one only.
pub update_piece-Filled :
    (beyond : Bool) (f : BitField) (i : ℕ) (p : Piece)
    → Kept f
    → get_elem? f.pieces i ≡ some p
    → (update_piece f i ≡ ok (filled_field f i))
      × All (λ q. find_next_block beyond f.num_blocks q ≡ negsuc 0) (filled_field f i).pieces
unfolding update_piece piece_at
update_piece-Filled beyond f i p h g = (
  ap (λ (o : Option Piece). filled (elim o [ none ↦ fault Fault.bad_index | some q ↦ ok q ])) g,
  fill_blocks-next beyond f.num_blocks (modify f.pieces i (whole_piece f.num_blocks))
      (modify-HasRequests f.num_blocks (whole_piece f.num_blocks) (λ q. refl) f.pieces i h.pieces),
)
  where
    filled : Result Piece → Result BitField
    filled x = x >>= λ q. ok (filled_field f i)

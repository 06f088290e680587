-- ===== src/BitTorrent/Remote.antt =====
-- BitField.cc for the bit field of a remote peer, which comes from a message, and the questions that
-- the peer-wire protocol asks of a bit field.
pub mod Told
use cplusplus_projects.Common.{
  ℕ, zero, suc, ◌*◌, Bool, true, false, not, List, [], ◌∷◌, ◌++◌, map, ℤ, pos, negsuc, ◌-ℤ◌, ltb_ℤ,
  leb_ℤ, ◌&&◌, if◌then◌else◌, Result, ok, fault, Fault, ◌>>=◌, length, get_elem?, none, some,
}
use cplusplus_projects.BitTorrent.BitField.{Piece, BitField, repeat, piece_at}

-- A piece as the message tells of it. The array `requested` is not allocated.
abbrev pub told_piece : ℕ → Bool → Piece
told_piece blocks b = record {
  available = b;
  blockfield = repeat blocks b;
  requested = [];
  current_block = negsuc 0;
  next_block = pos 0;
  requested_blocks = pos 0;
}

-- The counts of the remaining pieces and blocks after the loop.
abbrev pub remaining_after : ℤ → List Bool → ℤ → ℤ
remaining_after step [] n = n
remaining_after step (b ∷ bs) n = remaining_after step bs (if b then n -ℤ step else n)

-- The constructor from a message. The counts of requested pieces and blocks are left uninitialised.
unfoldable pub from_message : ℤ → ℤ → List Bool → ℕ → BitField
from_message pieces_junk blocks_junk bits blocks = record {
  local = false;
  num_blocks = blocks;
  pieces = map (told_piece blocks) bits;
  remaining_pieces = remaining_after (pos 1) bits (pos (length bits));
  remaining_blocks = remaining_after (pos blocks) bits (pos (length bits * blocks));
  requested_blocks = blocks_junk;
  requested_pieces = pieces_junk;
  non_requested_non_available = pos (length bits * blocks);
}

-- putInMessage.
unfoldable pub put_in_message : BitField → List Bool
put_in_message f = map (λ p. p.available) f.pieces

unfoldable pub is_piece_available : BitField → ℕ → Result Bool
is_piece_available f i = piece_at f i >>= λ p. ok p.available

-- isPieceRequested, for a local bit field only.
unfoldable pub is_piece_requested : BitField → ℕ → Result Bool
is_piece_requested f i =
    if f.local
    then (piece_at f i >>= λ p. ok (ltb_ℤ (pos 0) p.requested_blocks))
    else fault Fault.not_local

unfoldable pub have_piece : BitField → Bool
have_piece f = ltb_ℤ f.remaining_pieces (pos (length f.pieces))

-- BlockItem.
pub record BlockItem : Type 0 where
  pub piece_index : ℤ
  pub block_index : ℤ

abbrev pub no_block : BlockItem
no_block = record { piece_index = negsuc 0; block_index = negsuc 0 }

-- isValid.
abbrev pub is_valid : BlockItem → Bool
is_valid b = leb_ℤ (pos 0) b.piece_index && leb_ℤ (negsuc 0) b.block_index

-- amInterested: how many pieces of the remote bit field are missing here.
unfoldable pub count_interesting : BitField → ℕ → List Piece → Result ℕ
count_interesting here i [] = ok 0
count_interesting here i (p ∷ ps) = do
  mine ← (if p.available then is_piece_available here i else ok true)
  n ← count_interesting here (suc i) ps
  ok (if p.available && not mine then suc n else n)

unfoldable pub am_interested : BitField → BitField → Result ℕ
am_interested here remote = count_interesting here 0 remote.pieces

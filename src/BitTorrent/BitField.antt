-- ===== src/BitTorrent/BitField.antt =====
-- BitTorrent/BitField.cc: which pieces and blocks of a file a peer has, and has requested. The
-- arrays over the pieces are one list of a record for each piece.
pub mod Next
pub mod Kept
pub mod Filled
use cplusplus_projects.Common.{
  ℕ, zero, suc, ◌*◌, Bool, true, false, ◌||◌, ◌&&◌, List, [], ◌∷◌, Option, none, some, ℤ, pos,
  negsuc, ◌+ℤ◌, ◌-ℤ◌, ◌==ℤ◌, ltb_ℤ, ltb, if◌then◌else◌, Result, ok, fault, Fault, ◌>>=◌, length,
  get_elem?, modify,
}

pub record Piece : Type 0 where
  pub available : Bool
  pub blockfield : List Bool
  pub requested : List Bool
  pub current_block : ℤ
  pub next_block : ℤ
  pub requested_blocks : ℤ

pub record BitField : Type 0 where
  pub local : Bool
  pub num_blocks : ℕ
  pub pieces : List Piece
  pub remaining_pieces : ℤ
  pub remaining_blocks : ℤ
  pub requested_blocks : ℤ
  pub requested_pieces : ℤ
  pub non_requested_non_available : ℤ

abbrev pub max_ℤ : ℤ → ℤ → ℤ
max_ℤ a b = if ltb_ℤ a b then b else a

unfoldable pub repeat : ℕ → Bool → List Bool
repeat zero b = []
repeat (suc n) b = b ∷ repeat n b

abbrev pub new_piece : ℕ → Piece
new_piece blocks = record {
  available = false;
  blockfield = repeat blocks false;
  requested = repeat blocks false;
  current_block = negsuc 0;
  next_block = pos 0;
  requested_blocks = pos 0;
}

unfoldable pub new_pieces : ℕ → ℕ → List Piece
new_pieces zero blocks = []
new_pieces (suc n) blocks = new_piece blocks ∷ new_pieces n blocks

-- The constructor of a local bit field, without the seeder's fillBlocks.
unfoldable pub new_bit_field : ℕ → ℕ → BitField
new_bit_field n blocks = record {
  local = true;
  num_blocks = blocks;
  pieces = new_pieces n blocks;
  remaining_pieces = pos n;
  remaining_blocks = pos (n * blocks);
  requested_blocks = pos 0;
  requested_pieces = pos 0;
  non_requested_non_available = pos (n * blocks);
}

-- An element of an array; what is read behind its end is not specified, so it is a parameter.
abbrev pub read : Bool → List Bool → ℕ → Bool
read beyond bs i = elim (get_elem? bs i) [ none ↦ beyond | some b ↦ b ]

-- The loop of findNextBlock, with the rounds left first. The arrays are read before the index is
-- tested, so also at the index behind their end.
unfoldable pub find_from : Bool → Piece → ℕ → ℕ → ℕ → ℕ
find_from beyond p blocks zero i = i
find_from beyond p blocks (suc n) i =
    let rest = find_from beyond p blocks n (suc i) in
    if (read beyond p.requested i || read beyond p.blockfield i) && ltb i blocks then rest else i

-- findNextBlock: -1 if every block is requested or available.
unfoldable pub find_next_block : Bool → ℕ → Piece → ℤ
find_next_block beyond blocks p =
    let i = find_from beyond p blocks (suc blocks) 0 in if ltb i blocks then pos i else negsuc 0

unfoldable pub piece_at : BitField → ℕ → Result Piece
piece_at f i = elim (get_elem? f.pieces i) [ none ↦ fault Fault.bad_index | some p ↦ ok p ]

abbrev pub guard_local : BitField → ℕ → Result Piece
guard_local f i = if f.local then piece_at f i else fault Fault.not_local

abbrev pub decrease : Piece → Piece
decrease p = record p { requested_blocks = max_ℤ (p.requested_blocks -ℤ pos 1) (pos 0) }

-- The piece after setBlockRequested.
unfoldable pub request_block : Bool → ℕ → ℕ → Bool → Piece → Piece
request_block beyond blocks j value p =
    let q = record p { requested = modify p.requested j (λ b. value) } in
    let s = record q { next_block = find_next_block beyond blocks q } in
    if value then record s { requested_blocks = s.requested_blocks +ℤ pos 1 } else decrease s

abbrev pub count_request : Bool → ℤ → ℤ
count_request true n = n +ℤ pos 1
count_request false n = n -ℤ pos 1

abbrev pub count_free : Bool → ℤ → ℤ
count_free true n = max_ℤ (n -ℤ pos 1) (pos 0)
count_free false n = max_ℤ (n +ℤ pos 1) (pos 0)

-- The bit field after setBlockRequested; `p` is the piece before.
abbrev pub requested_field : Bool → BitField → ℕ → ℕ → Bool → Piece → BitField
requested_field beyond f i j value p = record f {
  pieces = modify f.pieces i (λ x. request_block beyond f.num_blocks j value p);
  requested_blocks = count_request value f.requested_blocks;
  non_requested_non_available = count_free value f.non_requested_non_available;
  requested_pieces =
      if p.current_block ==ℤ negsuc 0
      then count_request value f.requested_pieces
      else f.requested_pieces;
}

-- setBlockRequested, and the number that it returns.
unfoldable pub set_block_requested : Bool → BitField → ℕ → ℕ → Bool → Result (BitField × ℤ)
set_block_requested beyond f i j value = do
  p ← guard_local f i
  let g = requested_field beyond f i j value p
  if ltb j f.num_blocks
      then ok (g, g.remaining_blocks -ℤ g.requested_blocks)
      else fault Fault.bad_index

-- The piece after a block arrived.
unfoldable pub receive_block : Bool → ℕ → ℕ → Bool → Piece → Piece
receive_block beyond blocks j expected p =
    let q = record p { current_block = max_ℤ (pos j) p.current_block } in
    let s = if expected then decrease q else q in
    let t = record s { blockfield = modify s.blockfield j (λ b. true) } in
    record t { next_block = find_next_block beyond blocks t }

abbrev pub is_complete : Piece → Bool
is_complete p = (p.next_block ==ℤ negsuc 0) && (p.requested_blocks ==ℤ pos 0)

-- The bit field after a block arrived; `q` is the piece after.
abbrev pub received_field : BitField → ℕ → Piece → Bool → BitField
received_field f i q done = record f {
  pieces = modify f.pieces i (λ x. if done then record q { available = true } else q);
  remaining_blocks = max_ℤ (f.remaining_blocks -ℤ pos 1) (pos 0);
  requested_blocks = max_ℤ (f.requested_blocks -ℤ pos 1) (pos 0);
  remaining_pieces =
      if done then max_ℤ (f.remaining_pieces -ℤ pos 1) (pos 0) else f.remaining_pieces;
}

-- update with a block: whether the piece is complete.
unfoldable pub update_block : Bool → BitField → ℕ → ℕ → Bool → Result (BitField × Bool)
update_block beyond f i j expected = do
  p ← guard_local f i
  let q = receive_block beyond f.num_blocks j expected p
  if ltb j f.num_blocks
      then ok (received_field f i q (is_complete q), is_complete q)
      else fault Fault.bad_index

-- update with a whole piece: every block of every piece is marked.
abbrev pub fill_blocks : ℕ → Piece → Piece
fill_blocks blocks p = record p { blockfield = repeat blocks true }

unfoldable pub map_pieces : (Piece → Piece) → List Piece → List Piece
map_pieces h [] = []
map_pieces h (p ∷ ps) = h p ∷ map_pieces h ps

abbrev pub whole_piece : ℕ → Piece → Piece
whole_piece blocks q = record q {
  available = true;
  current_block = pos blocks -ℤ pos 1;
  next_block = negsuc 0;
}

abbrev pub filled_field : BitField → ℕ → BitField
filled_field f i = record f {
  remaining_pieces = f.remaining_pieces -ℤ pos 1;
  remaining_blocks = max_ℤ (f.remaining_blocks -ℤ pos f.num_blocks) (pos 0);
  pieces = map_pieces (fill_blocks f.num_blocks) (modify f.pieces i (whole_piece f.num_blocks));
}

unfoldable pub update_piece : BitField → ℕ → Result BitField
update_piece f i = piece_at f i >>= λ p. ok (filled_field f i)

unfoldable pub finished_downloading : BitField → Bool
finished_downloading f = f.remaining_blocks ==ℤ pos 0

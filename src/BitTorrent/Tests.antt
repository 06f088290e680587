-- ===== src/BitTorrent/Tests.antt =====
-- Runs on a small bit field. `Peers` has those on requests and peers.
mod Peers
use cplusplus_projects.Common.{
  ◌≡◌, ◌↔◌, refl, Bool, true, false, [], ◌∷◌, pos, negsuc, All, ◌-ℤ◌, ok, arith,
}
use cplusplus_projects.BitTorrent.BitField.{
  Piece, BitField, new_bit_field, new_piece, find_next_block, set_block_requested, receive_block,
  update_block, count_request, requested_field, received_field, find_from, new_pieces, update_piece,
  filled_field,
}
use cplusplus_projects.BitTorrent.BitField.Next.{IsNext, AllTaken, find_next_block-IsNext}
use cplusplus_projects.BitTorrent.BitField.Filled.{update_piece-Filled}
use cplusplus_projects.BitTorrent.BitField.Kept.{
  Kept, new_bit_field-Kept, set_block_requested-Kept, update_block-Kept,
}

-- Three blocks: the first is requested, the second is there.
abbrev piece : Piece
piece = record {
  available = false;
  blockfield = false ∷ true ∷ false ∷ [];
  requested = true ∷ false ∷ false ∷ [];
  current_block = pos 1;
  next_block = pos 2;
  requested_blocks = pos 1;
}

find_next_block-IsNext_example : IsNext 3 piece (find_next_block true 3 piece)
find_next_block-IsNext_example = find_next_block-IsNext true 3 piece (refl, refl)

find_next_block_third : find_next_block true 3 piece ≡ pos 2
unfolding find_next_block find_from
find_next_block_third = refl

abbrev field : BitField
field = new_bit_field 2 3

field-Kept : Kept field
field-Kept = new_bit_field-Kept 2 3 (omega arith)

set_block_requested-Kept_example :
    (set_block_requested false field 1 0 true
      ≡ ok (
        requested_field false field 1 0 true (new_piece 3),
        field.remaining_blocks -ℤ count_request true field.requested_blocks,
      ))
    × Kept (requested_field false field 1 0 true (new_piece 3))
unfolding new_bit_field new_pieces
set_block_requested-Kept_example =
    set_block_requested-Kept false field 1 0 true (new_piece 3) field-Kept refl (omega arith)

update_block-Kept_example :
    (q : Piece) × (done : Bool) × (q ≡ receive_block false 3 0 false (new_piece 3))
    × (update_block false field 1 0 false ≡ ok (received_field field 1 q done, done))
    × ((done ≡ true) ↔ (AllTaken q 3 × (q.requested_blocks ≡ pos 0)))
    × Kept (received_field field 1 q done)
unfolding new_bit_field new_pieces
update_block-Kept_example =
    update_block-Kept false field 1 0 false (new_piece 3) field-Kept refl (omega arith)

update_piece-Filled_example :
    (update_piece field 1 ≡ ok (filled_field field 1))
    × All (λ q. find_next_block false 3 q ≡ negsuc 0) (filled_field field 1).pieces
unfolding new_bit_field new_pieces
update_piece-Filled_example = update_piece-Filled false field 1 (new_piece 3) field-Kept refl

-- ===== src/BitTorrent/Remote/Told.antt =====
-- A bit field and its message hold the same.
use mathlib.Core.List.{append_assoc}
use cplusplus_projects.Common.{
  ◌∙◌, sym, fault, Fault, get_elem?-append, length-append, ℕ, suc, ◌+◌, ◌*◌, ◌++◌, ◌≤◌, ◌≡◌, refl,
  ap, Bool, true, false, not, ◌&&◌, List, [], ◌∷◌, map, ℤ, pos, ◌-ℤ◌, -ℤ_parts, eq_of_parts, arith,
  length, if◌then◌else◌, count_if, Option, some, none, get_elem?, ok, Result, ◌>>=◌,
}
use cplusplus_projects.BitTorrent.BitField.{Piece, BitField, piece_at}
use cplusplus_projects.BitTorrent.Remote.{
  told_piece, remaining_after, from_message, put_in_message, is_piece_available, count_interesting,
  am_interested,
}

put-told :
    (blocks : ℕ) (bits : List Bool) → map (λ p. p.available) (map (told_piece blocks) bits) ≡ bits
put-told blocks [] = refl
put-told blocks (b ∷ bs) = ap (◌∷◌ b) (put-told blocks bs)

minus_step : (a k : ℕ) → pos (a + k) -ℤ pos k ≡ pos a
minus_step a k = eq_of_parts _ _ (omega (arith, -ℤ_parts (pos (a + k)) (pos k)))

remaining_after_lem :
    (step m : ℕ) (bits : List Bool)
    → remaining_after (pos step) bits (pos (m + length bits * step))
      ≡ pos (m + count_if not bits * step)
remaining_after_lem step m [] = ap pos (omega arith)
remaining_after_lem step m (true ∷ bs) =
    ap (remaining_after (pos step) bs)
      (ap (λ n. pos n -ℤ pos step) (grind arith) ∙ minus_step (m + length bs * step) step)
    ∙ remaining_after_lem step m bs
    ∙ ap (λ n. pos (m + n * step)) (omega arith)
remaining_after_lem step m (false ∷ bs) =
    ap (λ n. remaining_after (pos step) bs (pos n)) (grind arith)
    ∙ remaining_after_lem step (m + step) bs
    ∙ ap pos (grind arith)

-- A remote bit field that comes from a message gives the same bits back in a message, and it counts
-- as remaining exactly the pieces whose bit is not set, and their blocks.
pub from_message-Told :
    (i j : ℤ) (bits : List Bool) (blocks : ℕ)
    → (put_in_message (from_message i j bits blocks) ≡ bits)
      × ((from_message i j bits blocks).remaining_pieces ≡ pos (count_if not bits))
      × ((from_message i j bits blocks).remaining_blocks ≡ pos (count_if not bits * blocks))
unfolding from_message put_in_message
from_message-Told i j bits blocks = (
  put-told blocks bits,
  ap (λ n. remaining_after (pos 1) bits (pos n)) (omega arith)
      ∙ remaining_after_lem 1 0 bits
      ∙ ap pos (omega arith),
  ap (λ n. remaining_after (pos blocks) bits (pos n)) (omega arith)
      ∙ remaining_after_lem blocks 0 bits
      ∙ ap pos (omega arith),
)

-- How many of the pieces `ps` are there, while the piece at the same place of `qs` is not.
abbrev pub wanted : List Piece → List Piece → ℕ
wanted (p ∷ ps) (q ∷ qs) = (if p.available && not q.available then 1 else 0) + wanted ps qs
wanted _ _ = 0

one_more :
    (there here : Bool) (mine : Result Bool) (rest : Result ℕ) (n : ℕ)
    → mine ≡ ok here
    → rest ≡ ok n
    → ((if there then mine else ok true) >>= λ m.
        rest >>= λ k. ok (if there && not m then suc k else k))
      ≡ ok ((if there && not here then 1 else 0) + n)
one_more true true mine rest n em er = rw (em, er) (ap ok (omega arith))
one_more true false mine rest n em er = rw (em, er) (ap ok (omega arith))
one_more false here mine rest n em er = rw er (ap ok (omega arith))

here_available :
    (f : BitField) (before : List Piece) (q : Piece) (qs : List Piece)
    → f.pieces ≡ before ++ q ∷ qs
    → is_piece_available f (length before) ≡ ok q.available
unfolding is_piece_available piece_at
here_available f before q qs e =
    ap (λ (o : Option Piece). available (elim o [ none ↦ fault Fault.bad_index | some p ↦ ok p ]))
      (ap (λ ps. get_elem? ps (length before)) e ∙ get_elem?-append before q qs)
  where
    available : Result Piece → Result Bool
    available x = x >>= λ p. ok p.available

count_interesting_lem :
    (here : BitField) (before qs ps : List Piece)
    → here.pieces ≡ before ++ qs
    → length ps ≤ length qs
    → count_interesting here (length before) ps ≡ ok (wanted ps qs)
unfolding count_interesting
count_interesting_lem here before qs [] e l = refl
count_interesting_lem here before [] (p ∷ ps) e l = absurd (omega (arith, l))
count_interesting_lem here before (q ∷ qs) (p ∷ ps) e l =
    one_more p.available q.available _ _ _ (here_available here before q qs e) (
      ap (λ n. count_interesting here n ps) (omega (arith, length-append before (q ∷ [])))
      ∙ count_interesting_lem here (before ++ q ∷ []) qs ps
          (e ∙ sym (append_assoc before (q ∷ []) qs)) (omega (arith, l)))

-- A remote bit field of no more pieces is interesting by the pieces that are missing here.
pub am_interested-wanted :
    (here remote : BitField)
    → length remote.pieces ≤ length here.pieces
    → am_interested here remote ≡ ok (wanted remote.pieces here.pieces)
unfolding am_interested
am_interested-wanted here remote l = count_interesting_lem here [] here.pieces remote.pieces refl l

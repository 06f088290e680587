-- ===== src/BitTorrent/Pieces/Rarest.antt =====
-- The order of the pieces, and the counts of the peers that have them.
use mathlib.Core.List.{append_assoc}
use cplusplus_projects.Common.{
  ℕ, suc, ◌≤◌, ◌≡◌, refl, ap, ◌∙◌, sym, Bool, true, false, List, [], ◌∷◌, ◌++◌, if◌then◌else◌, some,
  Result, ok, ◌>>=◌, arith, length, length-append, get_elem?, get_elem?-append, modify, sort_by,
  sort_by-IsSorted, count_if, count_if-IsSorted,
}
use cplusplus_projects.BitTorrent.Pieces.{
  PieceFreqEntry, is_rarer, one_more_peer, increase_piece_frequency, update_from,
  update_piece_frequencies,
}

pub is_rarer-asymmetric : (x y : PieceFreqEntry) → is_rarer x y ≡ true → is_rarer y x ≡ false
is_rarer-asymmetric x y h = ground (arith, h)

pub is_rarer-transitive :
    (x y z : PieceFreqEntry) → is_rarer y x ≡ false → is_rarer z y ≡ false → is_rarer z x ≡ false
is_rarer-transitive x y z h k = ground (arith, h, k)

-- In rarest-first order at most `k` entries are rarer than the one at `k`.
pub count-rarer :
    (es : List PieceFreqEntry) (k : ℕ) (e : PieceFreqEntry)
    → get_elem? (sort_by is_rarer es) k ≡ some e
    → count_if (λ c. is_rarer c e) (sort_by is_rarer es) ≤ k
count-rarer es k e g =
    count_if-IsSorted is_rarer is_rarer-asymmetric is_rarer-transitive (sort_by is_rarer es) k e
      (sort_by-IsSorted is_rarer is_rarer-asymmetric is_rarer-transitive es) g

-- The entries with one more peer at each place where the bit is set.
abbrev pub raised : List Bool → List PieceFreqEntry → List PieceFreqEntry
raised (b ∷ bs) (e ∷ es) = (if b then one_more_peer e else e) ∷ raised bs es
raised _ es = es

modify-append :
    (xs : List PieceFreqEntry) (y : PieceFreqEntry) (ys : List PieceFreqEntry)
    → modify (xs ++ y ∷ ys) (length xs) one_more_peer ≡ xs ++ one_more_peer y ∷ ys
modify-append [] y ys = refl
modify-append (x ∷ xs) y ys = ap (◌∷◌ x) (modify-append xs y ys)

increase_lem :
    (b : Bool) (xs : List PieceFreqEntry) (y : PieceFreqEntry) (ys : List PieceFreqEntry)
    → (if b then increase_piece_frequency (length xs) (xs ++ y ∷ ys) else ok (xs ++ y ∷ ys))
      ≡ ok (xs ++ (if b then one_more_peer y else y) ∷ ys)
unfolding increase_piece_frequency
increase_lem true xs y ys =
    rw (get_elem?-append xs y ys, increase_piece_frequency) (ap ok (modify-append xs y ys))
increase_lem false xs y ys = refl

update_from_lem :
    (xs : List PieceFreqEntry) (bits : List Bool) (ys : List PieceFreqEntry)
    → length bits ≤ length ys
    → update_from (length xs) bits (xs ++ ys) ≡ ok (xs ++ raised bits ys)
unfolding update_from
update_from_lem xs [] ys l = refl
update_from_lem xs (b ∷ bs) [] l = absurd (omega (arith, l))
update_from_lem xs (b ∷ bs) (y ∷ ys) l =
    let y' = (if b then one_more_peer y else y) in
    ap (λ (r : Result (List PieceFreqEntry)). r >>= λ gs. update_from (suc (length xs)) bs gs)
      (increase_lem b xs y ys)
    ∙ ap (λ gs. update_from (suc (length xs)) bs gs) (sym (append_assoc xs (y' ∷ []) ys))
    ∙ ap (λ n. update_from n bs ((xs ++ y' ∷ []) ++ ys)) (omega (arith, length-append xs (y' ∷ [])))
    ∙ update_from_lem (xs ++ y' ∷ []) bs ys (omega (arith, l))
    ∙ ap ok (append_assoc xs (y' ∷ []) (raised bs ys))

-- Bits of no more pieces than are counted raise the count of each piece whose bit is set.
pub update_piece_frequencies-raised :
    (bits : List Bool) (fs : List PieceFreqEntry)
    → length bits ≤ length fs
    → update_piece_frequencies bits fs ≡ ok (raised bits fs)
unfolding update_piece_frequencies
update_piece_frequencies-raised bits fs l = update_from_lem [] bits fs l

-- ===== src/BitTorrent/BitField/Kept.antt =====
-- The next block of every piece stays right when blocks are requested and arrive.
use mathlib.Core.Path.{subst}
use cplusplus_projects.Common.{
  ℕ, zero, suc, ◌≡◌, ◌<◌, ◌+ℤ◌, fault, Fault, some_inj, ◌↔◌, ==ℤ→eq, Option, none, refl, ap, ◌∙◌,
  inl, inr, Bool, true, false, ◌||◌, List, [], ◌∷◌, some, ℤ, pos, negsuc, ◌-ℤ◌, ◌==ℤ◌, lt→ltb,
  if◌then◌else◌, ok, arith, All, length, length-modify, get_elem?, modify,
}
use cplusplus_projects.BitTorrent.BitField.{
  Piece, BitField, repeat, new_pieces, new_bit_field, find_next_block, piece_at, decrease,
  request_block, set_block_requested, receive_block, is_complete, update_block, count_request,
  max_ℤ, requested_field, received_field, read,
}
use cplusplus_projects.BitTorrent.BitField.Next.{
  is_taken, AllTaken, IsNext, Fits, find_next_block-IsNext,
}

-- A piece whose arrays fit and whose next block is right.
pub record IsConsistent (blocks : ℕ) (p : Piece) : Type 0 where
  pub fits : Fits blocks p
  pub next : IsNext blocks p p.next_block

-- The count of requests is not read.
IsConsistent-count :
    (blocks : ℕ) (p : Piece) (n : ℤ)
    → IsConsistent blocks p
    → IsConsistent blocks (record p { requested_blocks = n })
IsConsistent-count blocks p n h = record { fits = h.fits; next = h.next }

request_block-IsConsistent :
    (beyond : Bool) (blocks j : ℕ) (value : Bool) (p : Piece)
    → Fits blocks p
    → IsConsistent blocks (request_block beyond blocks j value p)
unfolding request_block
request_block-IsConsistent beyond blocks j value p f =
    let q : Piece = record p { requested = modify p.requested j (λ b. value) } in
    let fits : Fits blocks q = (length-modify p.requested j (λ b. value) ∙ f.0, f.1) in
    let next = find_next_block-IsNext beyond blocks q fits in
    let s : IsConsistent blocks (record q { next_block = find_next_block beyond blocks q }) =
      record { fits = fits; next = next } in
    by_value value s
  where
    by_value :
        {s : Piece} (b : Bool)
        → IsConsistent blocks s
        → IsConsistent blocks
            (if b then record s { requested_blocks = s.requested_blocks +ℤ pos 1 } else decrease s)
    by_value {s} true h = IsConsistent-count blocks s _ h
    by_value {s} false h = IsConsistent-count blocks s _ h

receive_block-IsConsistent :
    (beyond : Bool) (blocks j : ℕ) (expected : Bool) (p : Piece)
    → Fits blocks p
    → IsConsistent blocks (receive_block beyond blocks j expected p)
unfolding receive_block
receive_block-IsConsistent beyond blocks j true p f =
    let q : Piece = decrease (record p {
      current_block = max_ℤ (pos j) p.current_block;
      blockfield = modify p.blockfield j (λ b. true);
    }) in
    let fits : Fits blocks q = (f.0, length-modify p.blockfield j (λ b. true) ∙ f.1) in
    record { fits = fits; next = find_next_block-IsNext beyond blocks q fits }
receive_block-IsConsistent beyond blocks j false p f =
    let q : Piece = record p {
      current_block = max_ℤ (pos j) p.current_block;
      blockfield = modify p.blockfield j (λ b. true);
    } in
    let fits : Fits blocks q = (f.0, length-modify p.blockfield j (λ b. true) ∙ f.1) in
    record { fits = fits; next = find_next_block-IsNext beyond blocks q fits }

module _ (P : Piece → Type 0) where
  All-modify : (ps : List Piece) (i : ℕ) (q : Piece) → P q → All P ps → All P (modify ps i (λ x. q))
  All-modify [] i q h a = tt
  All-modify (p ∷ ps) zero q h a = (h, a.1)
  All-modify (p ∷ ps) (suc i) q h a = (a.0, All-modify ps i q h a.1)

  All-get : (ps : List Piece) (i : ℕ) (p : Piece) → All P ps → get_elem? ps i ≡ some p → P p
  All-get [] i p a g = cc
  All-get (x ∷ ps) zero p a g = subst P (some_inj g) a.0
  All-get (x ∷ ps) (suc i) p a g = All-get ps i p a.1 g

-- A local bit field all of whose pieces are consistent.
pub record Kept (f : BitField) : Type 0 where
  pub is_local : f.local ≡ true
  pub pieces : All (IsConsistent f.num_blocks) f.pieces

guarded :
    (f : BitField) (i : ℕ) (p : Piece)
    → Kept f
    → get_elem? f.pieces i ≡ some p
    → (if f.local then piece_at f i else fault Fault.not_local) ≡ ok p
unfolding piece_at
guarded f i p h g =
    ap (λ b. if b then piece_at f i else fault Fault.not_local) h.is_local
    ∙ ap (λ (o : Option Piece). elim o [ none ↦ fault Fault.bad_index | some q ↦ ok q ]) g

-- In a local bit field in which the next block of every piece is the first that is neither
-- requested nor available, requesting a block within the bounds, or taking the request back,
-- succeeds, answers the number of remaining blocks less the new number of requested ones, and keeps
-- the next block of every piece right.
pub set_block_requested-Kept :
    (beyond : Bool) (f : BitField) (i j : ℕ) (value : Bool) (p : Piece)
    → Kept f
    → get_elem? f.pieces i ≡ some p
    → j < f.num_blocks
    → (set_block_requested beyond f i j value
        ≡ ok (
          requested_field beyond f i j value p,
          f.remaining_blocks -ℤ count_request value f.requested_blocks,
        ))
      × Kept (requested_field beyond f i j value p)
unfolding set_block_requested
set_block_requested-Kept beyond f i j value p h g b =
    let c = All-get (IsConsistent f.num_blocks) f.pieces i p h.pieces g in
    (
      rw (guarded f i p h g, lt→ltb j f.num_blocks b) refl,
      record {
        is_local = h.is_local;
        pieces =
            All-modify (IsConsistent f.num_blocks) f.pieces i
              (request_block beyond f.num_blocks j value p)
              (request_block-IsConsistent beyond f.num_blocks j value p c.fits) h.pieces;
      },
    )

-- A piece is complete when every block is taken and no request is counted.
is_complete-AllTaken :
    (blocks : ℕ) (q : Piece)
    → IsNext blocks q q.next_block
    → (is_complete q ≡ true) ↔ (AllTaken q blocks × (q.requested_blocks ≡ pos 0))
is_complete-AllTaken blocks q (inl (e, all)) = (
  λ c. (all, ==ℤ→eq _ _ (ground (arith, c))),
  λ d.
      let first : (q.next_block ==ℤ negsuc 0) ≡ true = ap (λ n. n ==ℤ negsuc 0) e in
      let second : (q.requested_blocks ==ℤ pos 0) ≡ true = ap (λ n. n ==ℤ pos 0) (d.1) in
      ground (arith, first, second),
)
is_complete-AllTaken blocks q (inr (i, e, l, free, all)) = (
  λ c.
      let other : (q.next_block ==ℤ negsuc 0) ≡ false = rw e (ground arith) in
      absurd (ground (arith, c, other)),
  λ d. absurd (let t : is_taken q i ≡ true = d.0 i l in cc),
)

mark_available :
    (blocks : ℕ) (q : Piece) (done : Bool)
    → IsConsistent blocks q
    → IsConsistent blocks (if done then record q { available = true } else q)
mark_available blocks q true k = record { fits = k.fits; next = k.next }
mark_available blocks q false k = k

-- In a local bit field in which the next block of every piece is the first that is neither
-- requested nor available, a block within the bounds that arrives is taken in without a fault and
-- keeps the next block of every piece right. The answer is true exactly when then every block of
-- the piece is requested or available and no request of the piece is counted.
pub update_block-Kept :
    (beyond : Bool) (f : BitField) (i j : ℕ) (expected : Bool) (p : Piece)
    → Kept f
    → get_elem? f.pieces i ≡ some p
    → j < f.num_blocks
    → (q : Piece) × (done : Bool) × (q ≡ receive_block beyond f.num_blocks j expected p)
      × (update_block beyond f i j expected ≡ ok (received_field f i q done, done))
      × ((done ≡ true) ↔ (AllTaken q f.num_blocks × (q.requested_blocks ≡ pos 0)))
      × Kept (received_field f i q done)
unfolding update_block
update_block-Kept beyond f i j expected p h g b =
    let c = All-get (IsConsistent f.num_blocks) f.pieces i p h.pieces g in
    let q = receive_block beyond f.num_blocks j expected p in
    let k = receive_block-IsConsistent beyond f.num_blocks j expected p c.fits in
    (
      q,
      is_complete q,
      refl,
      rw (guarded f i p h g, lt→ltb j f.num_blocks b) refl,
      is_complete-AllTaken f.num_blocks q k.next,
      record {
        is_local = h.is_local;
        pieces =
            All-modify (IsConsistent f.num_blocks) f.pieces i _
              (mark_available f.num_blocks q (is_complete q) k) h.pieces;
      },
    )

pub length-repeat : (n : ℕ) (b : Bool) → length (repeat n b) ≡ n
unfolding repeat
length-repeat zero b = refl
length-repeat (suc n) b = ap suc (length-repeat n b)

read-repeat : (n i : ℕ) → read false (repeat n false) i ≡ false
unfolding repeat
read-repeat zero i = refl
read-repeat (suc n) zero = refl
read-repeat (suc n) (suc i) = read-repeat n i

new_pieces-IsConsistent :
    (n blocks : ℕ) → 0 < blocks → All (IsConsistent blocks) (new_pieces n blocks)
unfolding new_pieces
new_pieces-IsConsistent zero blocks l = tt
new_pieces-IsConsistent (suc n) blocks l = (
  record {
    fits = (length-repeat blocks false, length-repeat blocks false);
    next = inr (
      0,
      refl,
      l,
      ap (λ b. b || read false (repeat blocks false) 0) (read-repeat blocks 0)
          ∙ read-repeat blocks 0,
      λ j below. absurd (omega (arith, below)),
    );
  },
  new_pieces-IsConsistent n blocks l,
)

-- A new local bit field of pieces with at least one block is in order.
pub new_bit_field-Kept : (n blocks : ℕ) → 0 < blocks → Kept (new_bit_field n blocks)
unfolding new_bit_field
new_bit_field-Kept n blocks l = record {
  is_local = refl;
  pieces = new_pieces-IsConsistent n blocks l;
}

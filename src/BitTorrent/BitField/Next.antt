-- ===== src/BitTorrent/BitField/Next.antt =====
-- findNextBlock finds the first block that is neither requested nor available.
use mathlib.Core.Path.{subst}
use cplusplus_projects.Common.{
  sym, ℕ, zero, suc, ◌+◌, ◌≡◌, ◌<◌, ◌≤◌, ◌⊎◌, inl, inr, refl, Bool, true, false, ◌||◌, List, [],
  ◌∷◌, ℤ, pos, negsuc, ltb, ltb→lt, arith, Bool-cases, length,
}
use cplusplus_projects.BitTorrent.BitField.{Piece, read, find_from, find_next_block}

-- A block that is requested or available.
abbrev pub is_taken : Piece → ℕ → Bool
is_taken p i = read false p.requested i || read false p.blockfield i

abbrev pub AllTaken : Piece → ℕ → Type 0
AllTaken p n = (j : ℕ) → j < n → is_taken p j ≡ true

-- `n` is the next block of the piece: the first that is not taken, or -1.
abbrev pub IsNext : ℕ → Piece → ℤ → Type 0
IsNext blocks p n =
    ((n ≡ negsuc 0) × AllTaken p blocks)
    ⊎ ((i : ℕ) × (n ≡ pos i) × (i < blocks) × (is_taken p i ≡ false) × AllTaken p i)

-- The arrays have an element for each block.
abbrev pub Fits : ℕ → Piece → Type 0
Fits blocks p = (length p.requested ≡ blocks) × (length p.blockfield ≡ blocks)

read-inside :
    (beyond : Bool) (bs : List Bool) (i : ℕ) → i < length bs → read beyond bs i ≡ read false bs i
read-inside beyond [] i l = absurd (omega arith)
read-inside beyond (b ∷ bs) zero l = refl
read-inside beyond (b ∷ bs) (suc i) l = read-inside beyond bs i (omega arith)

-- Where the loop stops.
abbrev Stops : ℕ → Piece → ℕ → Type 0
Stops blocks p k = (k ≤ blocks) × AllTaken p k × (k < blocks → is_taken p k ≡ false)

AllTaken-suc : (p : Piece) (i : ℕ) → AllTaken p i → is_taken p i ≡ true → AllTaken p (suc i)
AllTaken-suc p i h t j l = elim (Bool-cases (ltb j i)) [
  | inl below ↦ h j (ltb→lt j i below)
  | inr here ↦
      let same : j ≡ i = ground (arith, here, l) in subst (λ k. is_taken p k ≡ true) (sym same) t
]

find_from-Stops :
    (beyond : Bool) (p : Piece) (blocks n i : ℕ)
    → Fits blocks p
    → i + n ≡ suc blocks
    → i ≤ blocks
    → AllTaken p i
    → Stops blocks p (find_from beyond p blocks n i)
unfolding find_from
find_from-Stops beyond p blocks zero i f e l h = absurd (omega arith)
find_from-Stops beyond p blocks (suc n) i f e l h = elim (Bool-cases (ltb i blocks)) [
  | inr at_end ↦ elim (Bool-cases (read beyond p.requested i || read beyond p.blockfield i)) [
    | inl one ↦ rw (one, at_end) (l, h, λ b. absurd (ground (arith, at_end, b)))
    | inr other ↦ rw other (l, h, λ b. absurd (ground (arith, at_end, b)))
  ]
  | inl inside ↦
      let b = ltb→lt i blocks inside in
      let r1 = read-inside beyond p.requested i (omega (arith, b, f.0)) in
      let r2 = read-inside beyond p.blockfield i (omega (arith, b, f.1)) in
      elim (Bool-cases (is_taken p i)) [
        | inl taken ↦
            rw (r1, r2, taken, inside)
              (find_from-Stops beyond p blocks n (suc i) f (omega arith) (omega (arith, b))
                (AllTaken-suc p i h taken))
        | inr free ↦ rw (r1, r2, free) (l, h, λ b'. free)
      ]
]

-- For a piece whose arrays have an element for each block, whatever stands behind the ends of the
-- arrays, findNextBlock answers the first block of the piece that is neither requested nor
-- available, and -1 if there is none.
pub find_next_block-IsNext :
    (beyond : Bool) (blocks : ℕ) (p : Piece)
    → Fits blocks p
    → IsNext blocks p (find_next_block beyond blocks p)
unfolding find_next_block
find_next_block-IsNext beyond blocks p f =
    let i = find_from beyond p blocks (suc blocks) 0 in
    let (l, h, stop) =
      find_from-Stops beyond p blocks (suc blocks) 0 f (omega arith) (omega arith)
        (λ j b. absurd (omega (arith, b))) in
    elim (Bool-cases (ltb i blocks)) [
      | inl inside ↦
          rw inside (inr (i, refl, ltb→lt i blocks inside, stop (ltb→lt i blocks inside), h))
      | inr at_end ↦
          let same : i ≡ blocks = ground (arith, at_end, l) in
          rw at_end (inl (refl, subst (AllTaken p) same h))
    ]

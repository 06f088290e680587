-- ===== src/Common/Sort.antt =====
-- std::sort by a Boolean "less than", as a stable insertion sort, and counting by a test.
use Prim.Native.Nat.{ℕ, zero, suc, ◌+◌, ◌≤◌}
use mathlib.Core.Path.{◌≡◌, refl, ap, ◌∙◌, sym, subst}
use mathlib.Core.Bool.{Bool, true, false}
use mathlib.Core.Logic.{◌≢◌, inl, inr}
use mathlib.Core.List.{List, [], ◌∷◌}
use mathlib.Core.Option.{some}
use native.Mathlib.Omega.{arith}
use cplusplus_projects.Common.Tests.{if◌then◌else◌, Bool-cases, some_inj}
use cplusplus_projects.Common.Lists.{All, get_elem?, length, filter, All-filter}

module _ {ℓ} {A : Type ℓ} where
  abbrev pub count_if : (A → Bool) → List A → ℕ
  count_if p [] = 0
  count_if p (x ∷ xs) = (if p x then 1 else 0) + count_if p xs

  pub count_if_le_length : (p : A → Bool) (xs : List A) → count_if p xs ≤ length xs
  count_if_le_length p [] = omega arith
  count_if_le_length p (x ∷ xs) = let ih = count_if_le_length p xs in ground (arith, ih)

  pub count_if_none : (p : A → Bool) (xs : List A) → All (λ x. p x ≡ false) xs → count_if p xs ≡ 0
  count_if_none p [] h = refl
  count_if_none p (x ∷ xs) h = rw h.0 (omega (arith, count_if_none p xs h.1))

module _ {ℓ} {A : Type ℓ} (less : A → A → Bool) where
  unfoldable pub insert_by : A → List A → List A
  insert_by x [] = x ∷ []
  insert_by x (y ∷ ys) = if less y x then y ∷ insert_by x ys else x ∷ y ∷ ys

  unfoldable pub sort_by : List A → List A
  sort_by [] = []
  sort_by (x ∷ xs) = insert_by x (sort_by xs)

  pub count_if-insert_by :
      (p : A → Bool) (x : A) (ys : List A)
      → count_if p (insert_by x ys) ≡ (if p x then 1 else 0) + count_if p ys
  unfolding insert_by
  count_if-insert_by p x [] = refl
  count_if-insert_by p x (y ∷ ys) = elim (Bool-cases (less y x)) [
    | inl before ↦ rw before (omega (arith, count_if-insert_by p x ys))
    | inr after ↦ rw after refl
  ]

  pub count_if-sort_by : (p : A → Bool) (xs : List A) → count_if p (sort_by xs) ≡ count_if p xs
  unfolding sort_by
  count_if-sort_by p [] = refl
  count_if-sort_by p (x ∷ xs) =
      omega (arith, count_if-insert_by p x (sort_by xs), count_if-sort_by p xs)

  length-insert_by : (x : A) (ys : List A) → length (insert_by x ys) ≡ suc (length ys)
  unfolding insert_by
  length-insert_by x [] = refl
  length-insert_by x (y ∷ ys) = elim (Bool-cases (less y x)) [
    | inl before ↦ rw before (ap suc (length-insert_by x ys))
    | inr after ↦ rw after refl
  ]

  pub length-sort_by : (xs : List A) → length (sort_by xs) ≡ length xs
  unfolding sort_by
  length-sort_by [] = refl
  length-sort_by (x ∷ xs) = length-insert_by x (sort_by xs) ∙ ap suc (length-sort_by xs)

  -- No element is less than an earlier one.
  abbrev pub IsSorted : List A → Type ℓ
  IsSorted [] = Unit
  IsSorted (x ∷ xs) = All (λ y. less y x ≡ false) xs × IsSorted xs

module _ {ℓ κ} {A : Type ℓ} (less : A → A → Bool) (P : A → Type κ) where
  pub insert_by-All : (x : A) (ys : List A) → P x → All P ys → All P (insert_by less x ys)
  unfolding insert_by
  insert_by-All x [] p h = (p, tt)
  insert_by-All x (y ∷ ys) p h = elim (Bool-cases (less y x)) [
    | inl before ↦ rw before (h.0, insert_by-All x ys p h.1)
    | inr after ↦ rw after (p, h)
  ]

  pub sort_by-All : (xs : List A) → All P xs → All P (sort_by less xs)
  unfolding sort_by
  sort_by-All [] h = tt
  sort_by-All (x ∷ xs) h = insert_by-All x (sort_by less xs) h.0 (sort_by-All xs h.1)

module _ {ℓ κ} {A : Type ℓ} (less : A → A → Bool) (P : A → Type κ) where
  All-insert_by : (x : A) (ys : List A) → All P (insert_by less x ys) → P x × All P ys
  unfolding insert_by
  All-insert_by x [] h = h
  All-insert_by x (y ∷ ys) h = elim (Bool-cases (less y x)) [
    | inl before ↦
        let h' = rw before at h in let rest = All-insert_by x ys h'.1 in (rest.0, (h'.0, rest.1))
    | inr after ↦ rw after at h
  ]

  pub All-sort_by : (xs : List A) → All P (sort_by less xs) → All P xs
  unfolding sort_by
  All-sort_by [] h = tt
  All-sort_by (x ∷ xs) h =
      let both = All-insert_by x (sort_by less xs) h in (both.0, All-sort_by xs both.1)

module _ {ℓ} {A : Type ℓ} where
  -- The element is none of the list's.
  abbrev pub Fresh : A → List A → Type ℓ
  Fresh x ys = All (λ y. y ≢ x) ys

  abbrev pub AllDistinct : List A → Type ℓ
  AllDistinct [] = Unit
  AllDistinct (x ∷ xs) = Fresh x xs × AllDistinct xs

module _ {ℓ} {A : Type ℓ} (p : A → Bool) where
  pub filter-AllDistinct : (xs : List A) → AllDistinct xs → AllDistinct (filter p xs)
  unfolding filter
  filter-AllDistinct [] d = tt
  filter-AllDistinct (x ∷ xs) d = elim (Bool-cases (p x)) [
    | inl passed ↦ rw passed (All-filter p (λ y. y ≢ x) xs d.0, filter-AllDistinct xs d.1)
    | inr other ↦ rw other (filter-AllDistinct xs d.1)
  ]

  pub length-filter : (xs : List A) → length (filter p xs) ≡ count_if p xs
  unfolding filter
  length-filter [] = refl
  length-filter (x ∷ xs) = elim (Bool-cases (p x)) [
    | inl passed ↦ rw passed (ap suc (length-filter xs) ∙ omega arith)
    | inr other ↦ rw other (length-filter xs ∙ omega arith)
  ]

module _ {ℓ} {A : Type ℓ} (less : A → A → Bool) where
  insert_by-AllDistinct :
      (x : A) (ys : List A) → Fresh x ys → AllDistinct ys → AllDistinct (insert_by less x ys)
  unfolding insert_by
  insert_by-AllDistinct x [] f d = (tt, tt)
  insert_by-AllDistinct x (y ∷ ys) f d = elim (Bool-cases (less y x)) [
    | inl before ↦ rw before (
      insert_by-All less (λ z. z ≢ y) x ys (λ e. f.0 (sym e)) d.0,
      insert_by-AllDistinct x ys f.1 d.1,
    )
    | inr after ↦ rw after (f, d)
  ]

  pub sort_by-AllDistinct : (xs : List A) → AllDistinct xs → AllDistinct (sort_by less xs)
  unfolding sort_by
  sort_by-AllDistinct [] d = tt
  sort_by-AllDistinct (x ∷ xs) d =
      insert_by-AllDistinct x (sort_by less xs) (sort_by-All less (λ z. z ≢ x) xs d.0)
        (sort_by-AllDistinct xs d.1)

module _ {ℓ} {A : Type ℓ} (less : A → A → Bool)
    (asymmetric : (x y : A) → less x y ≡ true → less y x ≡ false)
    (transitive : (x y z : A) → less y x ≡ false → less z y ≡ false → less z x ≡ false) where
  irreflexive : (x : A) → less x x ≡ false
  irreflexive x = elim (Bool-cases (less x x)) [
    | inl t ↦ absurd (let f = asymmetric x x t in cc)
    | inr f ↦ f
  ]

  not_less :
      (x y : A) (ys : List A)
      → less y x ≡ false
      → All (λ z. less z y ≡ false) ys
      → All (λ z. less z x ≡ false) ys
  not_less x y [] h a = tt
  not_less x y (z ∷ zs) h a = (transitive x y z h a.0, not_less x y zs h a.1)

  insert_by-IsSorted :
      (x : A) (ys : List A) → IsSorted less ys → IsSorted less (insert_by less x ys)
  unfolding insert_by
  insert_by-IsSorted x [] h = (tt, tt)
  insert_by-IsSorted x (y ∷ ys) h = elim (Bool-cases (less y x)) [
    | inl before ↦ rw before (
      insert_by-All less (λ z. less z y ≡ false) x ys (asymmetric y x before) h.0,
      insert_by-IsSorted x ys h.1,
    )
    | inr after ↦ rw after ((after, not_less x y ys after h.0), h)
  ]

  pub sort_by-IsSorted : (xs : List A) → IsSorted less (sort_by less xs)
  unfolding sort_by
  sort_by-IsSorted [] = tt
  sort_by-IsSorted (x ∷ xs) = insert_by-IsSorted x (sort_by less xs) (sort_by-IsSorted xs)

  -- At most `k` elements are less than element `k` of a sorted list.
  pub count_if-IsSorted :
      (xs : List A) (k : ℕ) (x : A)
      → IsSorted less xs
      → get_elem? xs k ≡ some x
      → count_if (λ y. less y x) xs ≤ k
  count_if-IsSorted [] k x h g = cc
  count_if-IsSorted (y ∷ ys) zero x h g =
      subst (λ w. count_if (λ z. less z w) (y ∷ ys) ≤ 0) (some_inj g)
        (rw (irreflexive y) (omega (arith, count_if_none (λ z. less z y) ys h.0)))
  count_if-IsSorted (y ∷ ys) (suc k) x h g =
      let ih = count_if-IsSorted ys k x h.1 g in ground (arith, ih)

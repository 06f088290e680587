-- ===== src/Rms/Dequeue/Remove.antt =====
-- The queue after a job was taken out of its middle.
use mathlib.Core.Path.{subst}
use cplusplus_projects.Common.{
  ℕ, zero, suc, ◌≤◌, ◌<◌, ◌≡◌, ◌≢◌, refl, sym, ap, ◌∙◌, List, [], ◌∷◌, ◌++◌, some, arith, All,
  length, get_elem?, some_inj,
}
use cplusplus_projects.Rms.State.{Job}
use cplusplus_projects.Rms.Dequeue.{remove_at}
use cplusplus_projects.Rms.Dequeue.Ready.{HasOwners}

-- `Sublist xs ys`: `xs` is what is left of `ys`, in order.
pub data Sublist : List Job → List Job → Type 0 where
  sub_nil : Sublist [] []
  sub_skip : {xs ys : List Job} (y : Job) → Sublist xs ys → Sublist xs (y ∷ ys)
  sub_keep : {xs ys : List Job} (y : Job) → Sublist xs ys → Sublist (y ∷ xs) (y ∷ ys)

pub Sublist-refl : (xs : List Job) → Sublist xs xs
Sublist-refl [] = sub_nil
Sublist-refl (x ∷ xs) = sub_keep x (Sublist-refl xs)

pub Sublist-trans : {xs ys zs : List Job} → Sublist xs ys → Sublist ys zs → Sublist xs zs
Sublist-trans p sub_nil = p
Sublist-trans p (sub_skip y q) = sub_skip y (Sublist-trans p q)
Sublist-trans (sub_skip y p) (sub_keep _ q) = sub_skip y (Sublist-trans p q)
Sublist-trans (sub_keep y p) (sub_keep _ q) = sub_keep y (Sublist-trans p q)

-- A prefix was taken off.
pub Sublist-append : (xs ys : List Job) → Sublist ys (xs ++ ys)
Sublist-append [] ys = Sublist-refl ys
Sublist-append (x ∷ xs) ys = sub_skip x (Sublist-append xs ys)

pub remove_at-Sublist : (i : ℕ) (q : List Job) → Sublist (remove_at i q) q
unfolding remove_at
remove_at-Sublist i [] = sub_nil
remove_at-Sublist zero (x ∷ xs) = sub_skip x (Sublist-refl xs)
remove_at-Sublist (suc i) (x ∷ xs) = sub_keep x (remove_at-Sublist i xs)

-- `Kept q q'`: the first job of `q` is the first of `q'`, and the rest was thinned out.
abbrev pub Kept : List Job → List Job → Type 0
Kept [] q' = q' ≡ []
Kept (x ∷ xs) [] = ⊥
Kept (x ∷ xs) (y ∷ ys) = (y ≡ x) × Sublist ys xs

pub Kept-refl : (q : List Job) → Kept q q
Kept-refl [] = refl
Kept-refl (x ∷ xs) = (refl, Sublist-refl xs)

pub Kept-trans : (p q s : List Job) → Kept p q → Kept q s → Kept p s
Kept-trans [] [] s h k = k
Kept-trans [] (y ∷ q) s h k = cc
Kept-trans (x ∷ p) [] s h k = absurd h
Kept-trans (x ∷ p) (y ∷ q) [] h k = k
Kept-trans (x ∷ p) (y ∷ q) (z ∷ s) h k = (k.0 ∙ h.0, Sublist-trans k.1 h.1)

pub Kept-Sublist : (p q : List Job) → Kept p q → Sublist q p
Kept-Sublist [] [] h = sub_nil
Kept-Sublist [] (y ∷ q) h = cc
Kept-Sublist (x ∷ p) [] h = absurd h
Kept-Sublist (x ∷ p) (y ∷ q) h = subst (λ z. Sublist (z ∷ q) (x ∷ p)) (sym h.0) (sub_keep x h.1)

pub remove_at-Kept : (i : ℕ) (q : List Job) → 1 ≤ i → Kept q (remove_at i q)
unfolding remove_at
remove_at-Kept i [] l = refl
remove_at-Kept zero (x ∷ xs) l = absurd (omega arith)
remove_at-Kept (suc i) (x ∷ xs) l = (refl, remove_at-Sublist i xs)

pub length-remove_at :
    (i : ℕ) (q : List Job) → i < length q → suc (length (remove_at i q)) ≡ length q
unfolding remove_at
length-remove_at i [] l = absurd (omega arith)
length-remove_at zero (x ∷ xs) l = refl
length-remove_at (suc i) (x ∷ xs) l = ap suc (length-remove_at i xs (omega arith))

module _ (P : Job → Type 0) where
  pub All-Sublist : {xs ys : List Job} → Sublist xs ys → All P ys → All P xs
  All-Sublist sub_nil h = tt
  All-Sublist (sub_skip y p) h = All-Sublist p h.1
  All-Sublist (sub_keep y p) h = (h.0, All-Sublist p h.1)

  pub All-get : (q : List Job) (i : ℕ) (j : Job) → All P q → get_elem? q i ≡ some j → P j
  All-get [] i j h g = cc
  All-get (x ∷ xs) zero j h g = subst P (some_inj g) h.0
  All-get (x ∷ xs) (suc i) j h g = All-get xs i j h.1 g

pub HasOwners-Sublist : {xs ys : List Job} → Sublist xs ys → HasOwners ys → HasOwners xs
HasOwners-Sublist sub_nil h = tt
HasOwners-Sublist (sub_skip y p) h = HasOwners-Sublist p h.1
HasOwners-Sublist (sub_keep y p) h = (All-Sublist _ p h.0, HasOwners-Sublist p h.1)

-- No job that stays is of the client of the one that was taken out.
pub others-remove_at :
    (q : List Job) (i : ℕ) (j : Job)
    → HasOwners q
    → get_elem? q i ≡ some j
    → All (λ k. j.client_address ≢ k.client_address) (remove_at i q)
unfolding remove_at
others-remove_at [] i j h g = cc
others-remove_at (x ∷ xs) zero j h g =
    subst (λ y. All (λ k. y.client_address ≢ k.client_address) xs) (some_inj g) h.0
others-remove_at (x ∷ xs) (suc i) j h g =
    (λ same. All-get _ xs i j h.0 g (sym same), others-remove_at xs i j h.1 g)

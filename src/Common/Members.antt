-- ===== src/Common/Members.antt =====
-- Which numbers are in a list, and how a count over it changes with one of them.
use Prim.Native.Nat.{ℕ, suc}
use mathlib.Core.Path.{◌≡◌, refl, sym, ◌∙◌, subst}
use mathlib.Core.Logic.{◌≢◌, ◌⊎◌, inl, inr}
use mathlib.Core.Bool.{Bool, true, false}
use mathlib.Core.List.{List, [], ◌∷◌}
use native.Mathlib.Omega.{arith}
use cplusplus_projects.Common.Lists.{All}
use cplusplus_projects.Common.Sort.{count_if, Fresh, AllDistinct}

-- The peer is one of the list's.
abbrev pub IsIn : ℕ → List ℕ → Type 0
IsIn t [] = ⊥
IsIn t (u ∷ us) = (u ≡ t) ⊎ IsIn t us

pub IsIn-self : (ts : List ℕ) → All (λ t. IsIn t ts) ts
IsIn-self [] = tt
IsIn-self (t ∷ ts) = (inl refl, mapped (λ u. IsIn u ts) ts (λ u i. inr i) (IsIn-self ts))
  where
    mapped :
        (P : ℕ → Type 0) (us : List ℕ)
        → ((u : ℕ) → P u → IsIn u (t ∷ ts))
        → All P us
        → All (λ u. IsIn u (t ∷ ts)) us
    mapped P [] f a = tt
    mapped P (u ∷ us) f a = (f u a.0, mapped P us f a.1)

module _ (P Q R : ℕ → Type 0) where
  pub All-zip : (ts : List ℕ) → ((t : ℕ) → P t → Q t → R t) → All P ts → All Q ts → All R ts
  All-zip [] f a b = tt
  All-zip (t ∷ ts) f a b = (f t a.0 b.0, All-zip ts f a.1 b.1)

module _ (f g : ℕ → Bool) where
  count_if-same : (ts : List ℕ) → All (λ u. f u ≡ g u) ts → count_if f ts ≡ count_if g ts
  count_if-same [] a = refl
  count_if-same (t ∷ ts) a = rw (a.0, count_if-same ts a.1) refl

  -- Of distinct peers one more passes the second test.
  pub count_if_one_more :
      (t : ℕ) (ts : List ℕ)
      → AllDistinct ts
      → IsIn t ts
      → ((u : ℕ) → t ≢ u → f u ≡ g u)
      → f t ≡ false
      → g t ≡ true
      → count_if g ts ≡ suc (count_if f ts)
  count_if_one_more t [] d i same never now_it = absurd i
  count_if_one_more t (u ∷ us) d (inl here) same never now_it =
      let others : All (λ v. f v ≡ g v) us = fresh us (subst (λ x. Fresh x us) here d.0) in
      let rest = count_if-same us others in rw (here, never, now_it, rest) omega arith
    where
      fresh : (vs : List ℕ) → Fresh t vs → All (λ v. f v ≡ g v) vs
      fresh [] h = tt
      fresh (v ∷ vs) h = (same v (λ e. h.0 (sym e)), fresh vs h.1)
  count_if_one_more t (u ∷ us) d (inr later) same never now_it =
      let ih = count_if_one_more t us d.1 later same never now_it in
      rw (same u (apart us d.0 later), ih) omega arith
    where
      apart : (vs : List ℕ) → Fresh u vs → IsIn t vs → t ≢ u
      apart [] h i = absurd i
      apart (v ∷ vs) h (inl e) = λ k. h.0 (e ∙ k)
      apart (v ∷ vs) h (inr i) = apart vs h.1 i

-- ===== src/Uso/Ratio.antt =====
-- Averages and loads of SuperComUSO.cc, quotients that are only compared, as fractions.
use native.Mathlib.Nat.{le_of_mul-le-mul_right, mul-le-mul_right}
use cplusplus_projects.Common.{
  ℕ, ◌+◌, ◌*◌, ◌≤◌, ◌<◌, ◌≡◌, Bool, true, ℤ, pos_part, neg_part, ltb, leb, arith,
}

pub record Ratio : Type 0 where
  pub over : ℤ
  pub under : ℕ

-- a <= b and a < b, for denominators that are not zero.
abbrev pub leb_ratio : Ratio → Ratio → Bool
leb_ratio a b =
    leb (pos_part a.over * b.under + neg_part b.over * a.under)
      (pos_part b.over * a.under + neg_part a.over * b.under)

abbrev pub ltb_ratio : Ratio → Ratio → Bool
ltb_ratio a b =
    ltb (pos_part a.over * b.under + neg_part b.over * a.under)
      (pos_part b.over * a.under + neg_part a.over * b.under)

pub leb_ratio_refl : (a : Ratio) → leb_ratio a a ≡ true
leb_ratio_refl a = ground arith

-- With natural numbers for the parts of the numerators.
le_trans_parts :
    (p n d q m e r l f : ℕ)
    → 0 < e
    → p * e + m * d ≤ q * d + n * e
    → q * f + l * e ≤ r * e + m * f
    → p * f + l * d ≤ r * d + n * f
le_trans_parts p n d q m e r l f e_pos h k =
    let h' : (p * e + m * d) * f ≤ (q * d + n * e) * f = mul-le-mul_right f h in
    let k' : (q * f + l * e) * d ≤ (r * e + m * f) * d = mul-le-mul_right d k in
    le_of_mul-le-mul_right {k = e} (grind (arith, h', k')) e_pos

pub leb_ratio-transitive :
    (a b c : Ratio)
    → 0 < b.under
    → leb_ratio a b ≡ true
    → leb_ratio b c ≡ true
    → leb_ratio a c ≡ true
leb_ratio-transitive a b c b_pos h k =
    let t =
      le_trans_parts (pos_part a.over) (neg_part a.over) a.under (pos_part b.over) (neg_part b.over)
        b.under (pos_part c.over) (neg_part c.over) c.under b_pos (ground (arith, h))
        (ground (arith, k)) in
    ground (arith, t)

-- ===== src/Uso/Select/RoundRobin.antt =====
-- Without Fit4Green the sites are chosen in turn.
use native.Mathlib.Nat.{suc-mod, mod-lt, mod-eq_of_lt, mod_self}
use cplusplus_projects.Common.{
  ℕ, zero, suc, ◌%◌, ◌≤◌, ◌<◌, ◌≡◌, refl, ap, sym, ◌∙◌, Bool, false, ℤ, pos, negsuc, ◌+ℤ◌, ltb_ℤ,
  ◌==ℤ◌, arith, Result, ok, ◌>>=◌, Bool-cases, inl, inr, +ℤ_parts, eq_of_parts,
}
use cplusplus_projects.Rms.State.{Rms}
use cplusplus_projects.Uso.State.{Client, Uso}
use cplusplus_projects.Uso.Select.{next_rms, select_rms}

-- The number that the round-robin choice comes to.
turn_from : (n r : ℕ) → r ≤ n → next_rms (suc n) (pos r) ≡ pos (suc r % suc n)
turn_from n r l =
    let later : (pos r ==ℤ negsuc 0) ≡ false = ground arith in
    elim (Bool-cases (ltb_ℤ (pos (suc n) +ℤ negsuc 0) (pos r +ℤ pos 1))) [
      | inl over ↦
          let same : suc r ≡ suc n =
            ground (arith, l, over, +ℤ_parts (pos (suc n)) (negsuc 0), +ℤ_parts (pos r) (pos 1)) in
          rw (later, over) (ap pos (sym (ap (λ v. v % suc n) same ∙ mod_self (suc n))))
      | inr under ↦
          let less : suc r < suc n =
            ground (arith, l, under, +ℤ_parts (pos (suc n)) (negsuc 0), +ℤ_parts (pos r) (pos 1)) in
          rw (later, under)
            (eq_of_parts _ _ (omega (arith, +ℤ_parts (pos r) (pos 1)))
              ∙ ap pos (sym (mod-eq_of_lt less)))
    ]

select_turn :
    (energy_estimate : Rms → Client → ℤ) (energy_aware : Bool) (a : ℕ) (u : Uso)
    → u.fit4green ≡ false
    → select_rms energy_estimate energy_aware a u
      ≡ ok (
        next_rms u.num_rms u.previous_rms,
        record u { previous_rms = next_rms u.num_rms u.previous_rms },
      )
unfolding select_rms
select_turn energy_estimate energy_aware a u off = rw off refl

next_turn : (n k : ℕ) → next_rms (suc n) (pos (k % suc n)) ≡ pos (suc k % suc n)
next_turn n k =
    let less : k % suc n < suc n = mod-lt k (omega arith) in
    turn_from n (k % suc n) (omega (arith, less)) ∙ ap pos (sym (suc-mod k (suc n)))

first_turn : (n : ℕ) → next_rms (suc n) (negsuc 0) ≡ pos (0 % suc n)
first_turn n = let none : 0 % suc n ≡ 0 = mod-eq_of_lt (omega arith) in ap pos (sym none)

-- The call number `k` is for client `client k`, with its own strategy and estimate.
module _ (energy_estimate : ℕ → Rms → Client → ℤ) (energy_aware : ℕ → Bool) (client : ℕ → ℕ) where
  -- The answer of the last of `suc k` calls, and the state after it.
  unfoldable pub select_repeatedly : ℕ → Uso → Result (ℤ × Uso)
  select_repeatedly zero u = select_rms (energy_estimate 0) (energy_aware 0) (client 0) u
  select_repeatedly (suc k) u = select_repeatedly k u >>= λ p.
      select_rms (energy_estimate (suc k)) (energy_aware (suc k)) (client (suc k)) p.1

  -- Without Fit4Green and before any choice, the choice number k, counted from zero, is the site k
  -- modulo the number of sites, whichever clients the choices are for and whatever strategy each of
  -- them asks for.
  pub select_repeatedly_lem :
      (k n : ℕ) (u : Uso)
      → u.fit4green ≡ false
      → u.num_rms ≡ suc n
      → u.previous_rms ≡ negsuc 0
      → select_repeatedly k u ≡ ok (pos (k % suc n), record u { previous_rms = pos (k % suc n) })
  unfolding select_repeatedly
  select_repeatedly_lem zero n u off sites first =
      select_turn (energy_estimate 0) (energy_aware 0) (client 0) u off
      ∙ ap (λ v. ok (v, record u { previous_rms = v }))
          (ap (λ v. next_rms v u.previous_rms) sites ∙ ap (next_rms (suc n)) first ∙ first_turn n)
  select_repeatedly_lem (suc k) n u off sites first =
      rw (select_repeatedly_lem k n u off sites first) (
        select_turn (energy_estimate (suc k)) (energy_aware (suc k)) (client (suc k))
          (record u { previous_rms = pos (k % suc n) }) off
        ∙ ap
            (λ v. ok (
              next_rms v (pos (k % suc n)),
              record u { previous_rms = next_rms v (pos (k % suc n)) },
            ))
            sites
        ∙ ap (λ v. ok (v, record u { previous_rms = v })) (next_turn n k))

-- ===== src/ServerApp/Cores/Undone.antt =====
-- The loop that gives a job's cores back undoes the one that allocates them.
use cplusplus_projects.Common.{
  ℕ, suc, ◌+◌, ◌≡◌, refl, ap, ◌∙◌, sym, true, false, List, [], ◌∷◌, ℤ, pos, ◌==ℤ◌, ==ℤ_refl, ==ℤ→eq,
  if◌then◌else◌, inl, inr, Bool-cases, arith,
}
use cplusplus_projects.ServerApp.State.{idle_load}
use cplusplus_projects.ServerApp.Cores.{
  job_load, clamped_load, mark_cpu, allocate_cores, unload_cores,
}
use cplusplus_projects.ServerApp.Cores.Marked.{count_load, count_loads}

module _ (old new need : ℤ) (n : ℕ) (c : ℤ) (cs : List ℤ) where
  last_eq :
      (c ==ℤ old) ≡ true
      → (pos (suc n) ==ℤ need) ≡ true
      → mark_cpu old new need n (c ∷ cs) ≡ (new ∷ cs, suc n)
  unfolding mark_cpu
  last_eq hit last = rw (hit, last, mark_cpu) refl

  early_eq :
      (c ==ℤ old) ≡ true
      → (pos (suc n) ==ℤ need) ≡ false
      → mark_cpu old new need n (c ∷ cs)
        ≡ (new ∷ (mark_cpu old new need (suc n) cs).0, (mark_cpu old new need (suc n) cs).1)
  unfolding mark_cpu
  early_eq hit early = rw (hit, early, mark_cpu) refl

  miss_eq :
      (c ==ℤ old) ≡ false
      → mark_cpu old new need n (c ∷ cs)
        ≡ (c ∷ (mark_cpu old new need n cs).0, (mark_cpu old new need n cs).1)
  unfolding mark_cpu
  miss_eq miss = rw (miss, mark_cpu) refl

empty_eq : (old new need : ℤ) (n : ℕ) → mark_cpu old new need n [] ≡ ([], n)
unfolding mark_cpu
empty_eq old new need n = refl

none_more :
    (c new : ℤ) (k : ℕ) → (if c ==ℤ new then 1 else 0) + k ≡ 0 → ((c ==ℤ new) ≡ false) × (k ≡ 0)
none_more c new k h = elim (Bool-cases (c ==ℤ new)) [
  | inl same ↦ absurd (ground (arith, h, same))
  | inr other ↦ (other, omega (arith, h))
]

mark_cpu-mark_cpu :
    (old new need : ℤ) (n : ℕ) (cs : List ℤ)
    → count_load cs new ≡ 0
    → mark_cpu new old need n (mark_cpu old new need n cs).0 ≡ (cs, (mark_cpu old new need n cs).1)
mark_cpu-mark_cpu old new need n [] free = rw (empty_eq old new need n) (empty_eq new old need n)
mark_cpu-mark_cpu old new need n (c ∷ cs) free =
    let (none, rest) = none_more c new (count_load cs new) free in
    elim (Bool-cases (c ==ℤ old)) [
      | inl hit ↦
          let back = ap (λ v. v ∷ cs) (sym (==ℤ→eq c old hit)) in
          elim (Bool-cases (pos (suc n) ==ℤ need)) [
            | inl last ↦
                rw
                  (
                    last_eq old new need n c cs hit last,
                    last_eq new old need n new cs (==ℤ_refl new) last,
                  )
                  (ap (λ v. (v, suc n)) back)
            | inr early ↦
                let ih = mark_cpu-mark_cpu old new need (suc n) cs rest in
                rw
                  (
                    early_eq old new need n c cs hit early,
                    early_eq new old need n new (mark_cpu old new need (suc n) cs).0 (==ℤ_refl new)
                        early,
                    ih,
                  )
                  (ap (λ v. (v, (mark_cpu old new need (suc n) cs).1)) back)
          ]
      | inr miss ↦
          let ih = mark_cpu-mark_cpu old new need n cs rest in
          rw
            (
              miss_eq old new need n c cs miss,
              miss_eq new old need n c (mark_cpu old new need n cs).0 none,
              ih,
            )
            refl
    ]

unload_full :
    (load need : ℤ) (n : ℕ) (cs : List (List ℤ))
    → (pos n ==ℤ need) ≡ true
    → unload_cores load need n cs ≡ cs
unfolding unload_cores
unload_full load need n [] full = refl
unload_full load need n (c ∷ cs) full = rw (full, unload_cores) refl

pub unload_cores-allocate_cores :
    (load need : ℤ) (n : ℕ) (cs : List (List ℤ))
    → clamped_load load ≡ job_load load
    → count_loads cs (job_load load) ≡ 0
    → (pos n ==ℤ need) ≡ false
    → unload_cores load need n (allocate_cores load need n cs) ≡ cs
unfolding unload_cores allocate_cores
unload_cores-allocate_cores load need n [] same free below = refl
unload_cores-allocate_cores load need n (c ∷ cs) same free below =
    let d = mark_cpu idle_load (clamped_load load) need n c in
    let undone : mark_cpu (job_load load) idle_load need n d.0 ≡ (c, d.1) =
      ap (λ v. mark_cpu v idle_load need n d.0) (sym same)
      ∙ mark_cpu-mark_cpu idle_load (clamped_load load) need n c
          (ap (count_load c) same ∙ omega (arith, free)) in
    elim (Bool-cases (pos d.1 ==ℤ need)) [
      | inl full ↦
          rw (full, allocate_cores)
            (rw (below, unload_cores) (rw undone (ap (◌∷◌ c) (unload_full load need d.1 cs full))))
      | inr more ↦
          let ih = unload_cores-allocate_cores load need d.1 cs same (omega (arith, free)) more in
          rw (more, allocate_cores) (rw (below, unload_cores) (rw (undone, ih) refl))
    ]

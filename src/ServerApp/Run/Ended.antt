-- ===== src/ServerApp/Run/Ended.antt =====
-- The end of a job leaves the server's books right.
use mathlib.Core.Path.{subst}
use cplusplus_projects.Common.{
  ℕ, zero, suc, ◌+◌, ◌≤◌, ◌<◌, ◌≡◌, refl, ap, ◌∙◌, true, false, List, [], ◌∷◌, ◌++◌, ℤ, pos, ◌-ℤ◌,
  -ℤ_parts, eq_of_parts, pos_part, ltb_ℤ, leb_ℤ, ◌==ℤ◌, ==ℤ_refl, ◌==◌, arith, All,
}
use cplusplus_projects.ServerApp.State.{
  HddState, OperationMode, powered_on, Hardware, Complete, Internal, complete, Scheduled, ServerApp,
  compute_energy, idle_load,
}
use cplusplus_projects.ServerApp.Cores.{job_load, unload_cores}
use cplusplus_projects.ServerApp.Cores.Marked.{
  at_load, count_loads, unload_cores-at_load, job_load-idle,
}
use cplusplus_projects.ServerApp.Handle.{end_job, hdd_after, response}
use cplusplus_projects.ServerApp.Outcome.{ends}
use cplusplus_projects.ServerApp.Run.{at_time}
use cplusplus_projects.ServerApp.Run.Totals.{
  total, total-split, job_count, job_memory, job_cores, wakeup_count,
}
use cplusplus_projects.ServerApp.Run.Consistent.{
  ProperMessage, Counted, Phase, awake, asleep, waking, hdd_for, Consistent, Handled, parts_of,
  pos_of, no_neg_part,
}

pub All-split :
    (before : List Scheduled) (m : Scheduled) (behind : List Scheduled)
    → All (λ m. ProperMessage m.message) (before ++ m ∷ behind)
    → ProperMessage m.message × All (λ m. ProperMessage m.message) (before ++ behind)
All-split [] m behind h = h
All-split (b ∷ before) m behind h =
    let (p, rest) = All-split before m behind h.1 in (p, (h.0, rest))

-- With a job the server is awake.
awake_if_job :
    (mode : OperationMode) (h : Hardware) (ms : List Scheduled)
    → Phase mode h ms
    → 0 < total job_count ms
    → (mode ≡ powered_on)
      × (total wakeup_count ms ≡ 0)
      × ((l : ℤ) → (l ==ℤ idle_load) ≡ false → count_loads h.cpus l ≡ total (job_cores l) ms)
awake_if_job mode h ms (awake m w c d) busy = (m, w, c)
awake_if_job mode h ms (asleep m w j o d) busy = absurd (omega (arith, busy, j))
awake_if_job mode h ms (waking m w j o d) busy = absurd (omega (arith, busy, j))

disk_after : (n : ℕ) (h : HddState) → hdd_after (pos n) h ≡ hdd_for n
disk_after zero h = refl
disk_after (suc n) h =
    let none : (pos (suc n) ==ℤ pos 0) ≡ false = ground arith in
    let some_left : ltb_ℤ (pos 0) (pos (suc n)) ≡ true = ground arith in
    let positive : (suc n == 0) ≡ false = ground arith in rw (none, some_left, positive) refl

not_negative : {a : ℤ} {n : ℕ} → a ≡ pos n → ltb_ℤ a (pos 0) ≡ false
not_negative {n = n} e = ap (λ v. ltb_ℤ v (pos 0)) e ∙ ground arith

at_load_self : (load : ℤ) (need : ℕ) → at_load load need (job_load load) ≡ need
at_load_self load need = rw (==ℤ_refl (job_load load)) refl

module _ (junk : ℤ) (c : Complete) (time : ℤ) (s : ServerApp) (before behind : List Scheduled)
    (split : s.scheduled ≡ before ++ record { time = time; message = complete c } ∷ behind) where
  abbrev due : Scheduled
  due = record { time = time; message = complete c }

  -- The total of the other messages, and of the job that ends.
  total_now : (f : Internal → ℕ) → total f s.scheduled ≡ total f (before ++ behind) + f (complete c)
  total_now f = ap (total f) split ∙ total-split f before due behind

  end_job-Counted : Counted s → Counted (end_job junk c (at_time before due behind s))
  unfolding compute_energy
  end_job-Counted h =
      let (p, rest) =
        All-split before due behind (subst (All (λ m. ProperMessage m.message)) split h.proper) in
      record {
        running = eq_of_parts _ _ (
            omega
              (arith, parts_of h.running, total_now job_count, -ℤ_parts s.running_jobs (pos 1)));
        used = eq_of_parts _ _ (
            omega (
              arith,
              parts_of h.used,
              total_now job_memory,
              no_neg_part c.need_memory p.some_memory,
              -ℤ_parts s.used_memory c.need_memory,
            ));
        limit = omega (arith, h.limit, total_now job_count);
        fits = omega (arith, h.fits, p.some_memory, -ℤ_parts s.used_memory c.need_memory);
        proper = rest;
        output = h.output;
        delay = h.delay;
      }

  end_job-Phase :
      Consistent s
      → Phase
          (end_job junk c (at_time before due behind s)).operation_mode
          (end_job junk c (at_time before due behind s)).hardware
          (end_job junk c (at_time before due behind s)).scheduled
  unfolding compute_energy
  end_job-Phase h =
      let (p, rest) =
        All-split before due behind
          (subst (All (λ m. ProperMessage m.message)) split h.counted.proper) in
      let (on, woken, loads) = awake_if_job _ _ _ h.phase (omega (arith, total_now job_count)) in
      let counted = end_job-Counted h.counted in
      let need = pos_part c.cores in
      let own = job_load c.load in
      let there : need ≤ count_loads s.hardware.cpus own = omega (
        arith,
        loads own (job_load-idle c.load p.some_load),
        total_now (job_cores own),
        at_load_self c.load need,
      ) in
      awake on (omega (arith, woken, total_now wakeup_count))
        (λ l other.
          ap (λ v. count_loads (unload_cores c.load v 0 s.hardware.cpus) l)
            (pos_of c.cores (omega (arith, p.some_cores)))
          ∙ omega (
            arith,
            unload_cores-at_load c.load need s.hardware.cpus p.some_load there l other,
            loads l other,
            total_now (job_cores l),
          ))
        (ap (λ n. hdd_after n s.hardware.hdd_state) counted.running
          ∙ disk_after _ s.hardware.hdd_state)

  pub response-Handled : Consistent s → Handled (response junk c (at_time before due behind s))
  unfolding compute_energy
  response-Handled h =
      let counted = end_job-Counted h.counted in
      let t1 : ltb_ℤ (s.used_memory -ℤ c.need_memory) (pos 0) ≡ false = not_negative counted.used in
      let t2 : leb_ℤ s.output_data (pos 0) ≡ false = ground (arith, h.counted.output) in
      let t3 : ltb_ℤ (s.running_jobs -ℤ pos 1) (pos 0) ≡ false = not_negative counted.running in
      record {
        final = end_job junk c (at_time before due behind s);
        returns = ends junk (at_time before due behind s) c t1 t2 t3;
        consistent = record { counted = counted; phase = end_job-Phase h };
      }

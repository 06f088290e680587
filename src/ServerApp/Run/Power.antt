-- ===== src/ServerApp/Run/Power.antt =====
-- Sleep and wake-up messages, and the answers to them, leave the server's books right.
use mathlib.Core.Path.{subst}
use cplusplus_projects.Common.{
  ℕ, zero, suc, ◌+◌, ◌<◌, ◌≡◌, ◌≢◌, ◌⊎◌, inl, inr, refl, ap, sym, ◌∙◌, false, List, [], ◌∷◌, ◌++◌,
  ℤ, pos, ◌+ℤ◌, ◌≤ℤ◌, ◌<ℤ◌, ◌==◌, arith, All, All-append,
}
use cplusplus_projects.ServerApp.State.{
  HddState, OperationMode, powered_on, Hardware, Internal, complete, sleep_response,
  wakeup_response, Scheduled, ServerApp, compute_energy, idle_load, asleep_load, waking_load,
}
use cplusplus_projects.ServerApp.Cores.Marked.{count_loads-set_loads}
use cplusplus_projects.ServerApp.Handle.{
  receive_sleep, receive_wakeup, mode_of, sleep_delay, respond_wakeup, expire,
}
use cplusplus_projects.ServerApp.Run.{at_time}
use cplusplus_projects.ServerApp.Run.Totals.{
  total, total-append, total-split, job_count, job_memory, job_cores, wakeup_count,
}
use cplusplus_projects.ServerApp.Run.Consistent.{
  ProperMessage, Counted, Phase, awake, asleep, waking, hdd_for, Consistent, Handled,
}
use cplusplus_projects.ServerApp.Run.Ended.{All-split}

-- The books do not depend on messages that end no job.
Counted-same :
    (s : ServerApp) (t : ServerApp)
    → s.running_jobs ≡ t.running_jobs
    → s.used_memory ≡ t.used_memory
    → s.memory ≡ t.memory
    → s.output_data ≡ t.output_data
    → pos 0 ≤ℤ t.delay
    → total job_count s.scheduled ≡ total job_count t.scheduled
    → total job_memory s.scheduled ≡ total job_memory t.scheduled
    → All (λ m. ProperMessage m.message) t.scheduled
    → Counted s
    → Counted t
Counted-same s t r u m o delay jobs used proper h = record {
  running = sym r ∙ h.running ∙ ap pos jobs;
  used = sym u ∙ h.used ∙ ap pos used;
  limit = omega (arith, h.limit, jobs);
  fits = subst (λ v. t.used_memory ≤ℤ v) m (subst (λ v. v ≤ℤ s.memory) u h.fits);
  proper = proper;
  output = subst (λ v. pos 0 <ℤ v) o h.output;
  delay = delay;
}

Phase-same :
    (mode : OperationMode) (h : Hardware) (ms ns : List Scheduled)
    → total job_count ms ≡ total job_count ns
    → total wakeup_count ms ≡ total wakeup_count ns
    → ((l : ℤ) → total (job_cores l) ms ≡ total (job_cores l) ns)
    → Phase mode h ms
    → Phase mode h ns
Phase-same mode h ms ns j w c (awake m due loads disk) =
    awake m (omega (arith, w, due)) (λ l other. loads l other ∙ c l) (disk ∙ ap hdd_for j)
Phase-same mode h ms ns j w c (asleep m due none only disk) =
    asleep m (omega (arith, w, due)) (omega (arith, j, none)) only disk
Phase-same mode h ms ns j w c (waking m due none only disk) =
    waking m (omega (arith, w, due)) (omega (arith, j, none)) only disk

idle_disk : (n : ℕ) → hdd_for n ≡ HddState.idle → n ≡ 0
idle_disk zero e = refl
idle_disk (suc n) e =
    let positive : (suc n == 0) ≡ false = ground arith in
    absurd (let e' : HddState.loaded ≡ HddState.idle = rw positive at e in cc)

-- An idle disk is that of a server that is awake and has no job.
no_job_if_idle_disk :
    (mode : OperationMode) (h : Hardware) (ms : List Scheduled)
    → Phase mode h ms
    → h.hdd_state ≡ HddState.idle
    → (total wakeup_count ms ≡ 0) × (total job_count ms ≡ 0)
no_job_if_idle_disk mode h ms (awake m due loads disk) e = (due, idle_disk _ (sym disk ∙ e))
no_job_if_idle_disk mode h ms (asleep m due none only disk) e = cc
no_job_if_idle_disk mode h ms (waking m due none only disk) e = cc

-- A server that is not powered on has no job, and no wake-up is due.
no_job_if_off :
    (mode : OperationMode) (h : Hardware) (ms : List Scheduled)
    → Phase mode h ms
    → mode ≢ powered_on
    → (total wakeup_count ms ≡ 0) × (total job_count ms ≡ 0)
no_job_if_off mode h ms (awake m due loads disk) off = absurd (off m)
no_job_if_off mode h ms (asleep m due none only disk) off = (due, none)
no_job_if_off mode h ms (waking m due none only disk) off = absurd (off m)

-- While a wake-up is due the server is waking up.
no_job_if_due :
    (mode : OperationMode) (h : Hardware) (ms : List Scheduled)
    → Phase mode h ms
    → 0 < total wakeup_count ms
    → (mode ≡ powered_on) × (total wakeup_count ms ≡ 1) × (total job_count ms ≡ 0)
no_job_if_due mode h ms (awake m due loads disk) some_due = absurd (omega (arith, due, some_due))
no_job_if_due mode h ms (asleep m due none only disk) some_due =
    absurd (omega (arith, due, some_due))
no_job_if_due mode h ms (waking m due none only disk) some_due = (m, due, none)

no_cores : (l : ℤ) (ms : List Scheduled) → total job_count ms ≡ 0 → total (job_cores l) ms ≡ 0
no_cores l [] h = refl
no_cores l (m ∷ ms) h =
    omega (arith, of m.message (omega (arith, h)), no_cores l ms (omega (arith, h)))
  where
    of : (i : Internal) → job_count i ≡ 0 → job_cores l i ≡ 0
    of (complete c) e = absurd (omega (arith, e))
    of (sleep_response conn) e = refl
    of (wakeup_response conn client) e = refl

off_in_sleep :
    (mode : ℤ) (m : OperationMode) → (mode ≡ pos 1) ⊎ (mode ≡ pos 2) → mode_of mode m ≢ powered_on
off_in_sleep mode m (inl e) on =
    let f : OperationMode.standby ≡ powered_on = ap (λ v. mode_of v m) (sym e) ∙ on in cc
off_in_sleep mode m (inr e) on =
    let f : OperationMode.hybernated ≡ powered_on = ap (λ v. mode_of v m) (sym e) ∙ on in cc

delay_in_sleep : (mode d : ℤ) → (mode ≡ pos 1) ⊎ (mode ≡ pos 2) → pos 0 ≤ℤ sleep_delay mode d
delay_in_sleep mode d (inl e) = rw e (omega arith)
delay_in_sleep mode d (inr e) = rw e (omega arith)

pub sleep-Consistent :
    (s : ServerApp) (conn : ℕ) (mode : ℤ)
    → Consistent s
    → (mode ≡ pos 1) ⊎ (mode ≡ pos 2)
    → s.hardware.hdd_state ≡ HddState.idle
    → Consistent (receive_sleep conn mode s)
unfolding receive_sleep compute_energy
sleep-Consistent s conn mode h m disk =
    let new : Scheduled = record { time = s.now; message = sleep_response conn } in
    let grown : (f : Internal → ℕ)
        → total f (s.scheduled ++ new ∷ []) ≡ total f s.scheduled + total f (new ∷ []) =
      λ f. total-append f s.scheduled (new ∷ []) in
    let (due, none) = no_job_if_idle_disk _ _ _ h.phase disk in
    record {
      counted =
          Counted-same s _ refl refl refl refl (delay_in_sleep mode s.delay m)
            (omega (arith, grown job_count)) (omega (arith, grown job_memory))
            (All-append (λ m. ProperMessage m.message) s.scheduled (new ∷ []) h.counted.proper
              (tt, tt))
            h.counted;
      phase =
          asleep (off_in_sleep mode s.operation_mode m) (omega (arith, due, grown wakeup_count))
            (omega (arith, none, grown job_count))
            (λ l other. count_loads-set_loads asleep_load l s.hardware.cpus (ground (arith, other)))
            refl;
    }

pub wakeup-Consistent :
    (s : ServerApp) (conn client : ℕ)
    → Consistent s
    → s.operation_mode ≢ powered_on
    → Consistent (receive_wakeup conn client s)
unfolding receive_wakeup compute_energy
wakeup-Consistent s conn client h off =
    let new : Scheduled = record {
      time = s.now +ℤ s.delay;
      message = wakeup_response conn client;
    } in
    let grown : (f : Internal → ℕ)
        → total f (s.scheduled ++ new ∷ []) ≡ total f s.scheduled + total f (new ∷ []) =
      λ f. total-append f s.scheduled (new ∷ []) in
    let (due, none) = no_job_if_off _ _ _ h.phase off in
    record {
      counted =
          Counted-same s _ refl refl refl refl h.counted.delay (omega (arith, grown job_count))
            (omega (arith, grown job_memory))
            (All-append (λ m. ProperMessage m.message) s.scheduled (new ∷ []) h.counted.proper
              (tt, tt))
            h.counted;
      phase =
          waking refl (omega (arith, due, grown wakeup_count))
            (omega (arith, none, grown job_count))
            (λ l other. count_loads-set_loads waking_load l s.hardware.cpus (ground (arith, other)))
            refl;
    }

-- A message that is due, with the others.
module _ (m : Scheduled) (s : ServerApp) (before behind : List Scheduled)
    (split : s.scheduled ≡ before ++ m ∷ behind) (h : Consistent s) where
  total_due : (f : Internal → ℕ) → total f s.scheduled ≡ total f (before ++ behind) + f m.message
  total_due f = ap (total f) split ∙ total-split f before m behind

  rest_proper : All (λ n. ProperMessage n.message) (before ++ behind)
  rest_proper =
      (All-split before m behind
        (subst (All (λ n. ProperMessage n.message)) split h.counted.proper)).1

module _ (junk time : ℤ) (s : ServerApp) (before behind : List Scheduled) where
  abbrev the : Internal → Scheduled
  the m = record { time = time; message = m }

  pub slept-Handled :
      (conn : ℕ)
      → s.scheduled ≡ before ++ the (sleep_response conn) ∷ behind
      → Consistent s
      → Handled
          (expire junk (sleep_response conn) (at_time before (the (sleep_response conn)) behind s))
  unfolding expire
  slept-Handled conn split h =
      let m = the (sleep_response conn) in
      let same : (f : Internal → ℕ)
          → total f s.scheduled ≡ total f (before ++ behind) + f m.message =
        total_due m s before behind split h in
      record {
        final = _;
        returns = refl;
        consistent = record {
          counted =
              Counted-same s _ refl refl refl refl h.counted.delay (omega (arith, same job_count))
                (omega (arith, same job_memory)) (rest_proper m s before behind split h) h.counted;
          phase =
              Phase-same _ _ s.scheduled _ (omega (arith, same job_count))
                (omega (arith, same wakeup_count)) (λ l. omega (arith, same (job_cores l))) h.phase;
        };
      }

  pub woken-Handled :
      (conn client : ℕ)
      → s.scheduled ≡ before ++ the (wakeup_response conn client) ∷ behind
      → Consistent s
      → Handled (
          expire junk
            (wakeup_response conn client)
            (at_time before (the (wakeup_response conn client)) behind s))
  unfolding expire respond_wakeup compute_energy
  woken-Handled conn client split h =
      let m = the (wakeup_response conn client) in
      let same : (f : Internal → ℕ)
          → total f s.scheduled ≡ total f (before ++ behind) + f m.message =
        total_due m s before behind split h in
      let (on, due, none) = no_job_if_due _ _ _ h.phase (omega (arith, same wakeup_count)) in
      let left : total job_count (before ++ behind) ≡ 0 = omega (arith, none, same job_count) in
      record {
        final = _;
        returns = refl;
        consistent = record {
          counted =
              Counted-same s _ refl refl refl refl h.counted.delay (omega (arith, same job_count))
                (omega (arith, same job_memory)) (rest_proper m s before behind split h) h.counted;
          phase =
              awake on (omega (arith, due, same wakeup_count))
                (λ l other.
                  count_loads-set_loads idle_load l s.hardware.cpus (ground (arith, other))
                  ∙ sym (no_cores l (before ++ behind) left))
                (ap hdd_for (sym left));
        };
      }

-- ===== src/ServerApp/Energy.antt =====
-- The times that a server's energy is computed for.
use mathlib.Core.Path.{subst}
use cplusplus_projects.Common.{
  Bool-cases, ltb_ℤ, inl, inr, ◌≡◌, ◌⊎◌, inl, inr, refl, sym, ◌∙◌, List, [], ◌∷◌, ◌++◌, ℤ, pos,
  ◌≤ℤ◌, arith, Result, ok, ok_inj,
}
use cplusplus_projects.ServerApp.State.{
  Charge, Internal, complete, sleep_response, wakeup_response, Scheduled, ServerApp, Parameters,
  initialize, compute_energy,
}
use cplusplus_projects.ServerApp.Handle.{
  receive_sleep, receive_wakeup, receive, respond_wakeup, expire,
}
use cplusplus_projects.ServerApp.Outcome.{started, ended}
use cplusplus_projects.ServerApp.Run.{
  at_time, Event, request, suspend, wake, data_in, timeout, update, tick, Reachable, start, step,
}

-- The time up to now, with the hardware as it was.
abbrev pub charge_of : ServerApp → ℤ → Charge
charge_of s t = record { since = s.from; until = t; mode = s.operation_mode; hardware = s.hardware }

-- The hardware and the mode stay, or the time up to now is charged with the old ones.
abbrev pub Accounted : ServerApp → ServerApp → Type 0
Accounted s t =
    ((t.hardware ≡ s.hardware)
      × (t.operation_mode ≡ s.operation_mode)
      × (t.from ≡ s.from)
      × (t.charges ≡ s.charges)
      × (s.now ≤ℤ t.now))
    ⊎ ((t.from ≡ t.now) × (t.charges ≡ s.charges ++ charge_of s t.now ∷ []) × (s.now ≤ℤ t.now))

-- Periods without a gap from `a` to `b`.
abbrev pub Chain : ℤ → List Charge → ℤ → Type 0
Chain a [] b = a ≡ b
Chain a (c ∷ cs) b = (c.since ≡ a) × (c.since ≤ℤ c.until) × Chain c.until cs b

abbrev pub Charged : ServerApp → Type 0
Charged s = Chain (pos 0) s.charges s.from × (s.from ≤ℤ s.now)

timeout-Accounted :
    (junk : ℤ) (s t : ServerApp) (before : List Scheduled) (time : ℤ) (i : Internal)
    (behind : List Scheduled)
    → s.now ≤ℤ time
    → expire junk i (at_time before (record { time = time; message = i }) behind s) ≡ ok t
    → Accounted s t
unfolding expire respond_wakeup compute_energy
timeout-Accounted junk s t before time (complete c) behind later e =
    subst (Accounted s)
      (ended junk (at_time before (record { time = time; message = complete c }) behind s) t c e)
      (inr (refl, refl, later))
timeout-Accounted junk s t before time (sleep_response conn) behind later e =
    subst (Accounted s) (ok_inj e) (inl (refl, refl, refl, refl, later))
timeout-Accounted junk s t before time (wakeup_response conn client) behind later e =
    subst (Accounted s) (ok_inj e) (inr (refl, refl, later))

event-Accounted :
    {s : ServerApp} {r : Result ServerApp} → Event s r → (t : ServerApp) → r ≡ ok t → Accounted s t
unfolding receive receive_sleep receive_wakeup compute_energy
event-Accounted {s = s} (request conn j p timely few room cores) t e =
    subst (Accounted s) (started s t conn j e) (inr (refl, refl, omega arith))
event-Accounted {s = s} (suspend conn mode m disk) t e =
    subst (Accounted s) (ok_inj e) (inr (refl, refl, omega arith))
event-Accounted {s = s} (wake conn client off) t e = elim (Bool-cases (ltb_ℤ s.delay (pos 0))) [
  | inl past ↦ absurd (let f = rw past at e in cc)
  | inr timely ↦ subst (Accounted s) (ok_inj (rw timely at e)) (inr (refl, refl, omega arith))
]
event-Accounted {s = s} (data_in conn) t e =
    subst (Accounted s) (ok_inj e) (inl (refl, refl, refl, refl, omega arith))
event-Accounted {s = s} (timeout junk before m behind split later) t e =
    timeout-Accounted junk s t before m.time m.message behind later e
event-Accounted {s = s} update t e = subst (Accounted s) (ok_inj e) (inr (refl, refl, omega arith))
event-Accounted {s = s} (tick time later) t e =
    subst (Accounted s) (ok_inj e) (inl (refl, refl, refl, refl, later))

Chain-append :
    (a b d : ℤ) (cs : List Charge) (c : Charge)
    → Chain a cs b
    → c.since ≡ b
    → c.since ≤ℤ c.until
    → c.until ≡ d
    → Chain a (cs ++ c ∷ []) d
Chain-append a b d [] c h e l u = (e ∙ sym h, l, u)
Chain-append a b d (x ∷ cs) c h e l u = (h.0, h.1, Chain-append x.until b d cs c h.2 e l u)

Accounted-Charged : (s t : ServerApp) → Charged s → Accounted s t → Charged t
Accounted-Charged s t h (inl (w, m, f, c, later)) = (
  subst (λ v. Chain (pos 0) v t.from) (sym c) (subst (Chain (pos 0) s.charges) (sym f) h.0),
  subst (λ v. v ≤ℤ t.now) (sym f) (omega (arith, h.1, later)),
)
Accounted-Charged s t h (inr (f, c, later)) = (
  subst (λ v. Chain (pos 0) v t.from) (sym c)
      (Chain-append (pos 0) s.from t.from s.charges (charge_of s t.now) h.0 refl
        (omega (arith, h.1, later)) (sym f)),
  subst (λ v. v ≤ℤ t.now) (sym f) (omega arith),
)

Reachable-Charged : {p : Parameters} {s : ServerApp} → Reachable p s → Charged s
unfolding initialize
Reachable-Charged start = (refl, omega arith)
Reachable-Charged (step {s} {t} run e) =
    Accounted-Charged s t (Reachable-Charged run) (event-Accounted e t refl)

-- In every state of every run of a server, the periods that the energy was computed for follow each
-- other without a gap or an overlap, from time zero to `from`, which is not in the future. Every
-- event that changes the hardware or the mode of operation first computes the energy of the time up
-- to its own with the hardware and the mode as they were.
pub Reachable-Accounted :
    {p : Parameters} {s t : ServerApp} → Reachable p s → Event s (ok t) → Charged s × Accounted s t
Reachable-Accounted {s = s} {t = t} run e = (Reachable-Charged run, event-Accounted e t refl)

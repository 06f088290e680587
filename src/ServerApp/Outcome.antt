-- ===== src/ServerApp/Outcome.antt =====
-- What the start and the end of a job come to when they are not refused.
use cplusplus_projects.Common.{
  ℕ, ◌≡◌, refl, false, ℤ, pos, ◌+ℤ◌, ◌-ℤ◌, ltb_ℤ, leb_ℤ, Bool-cases, inl, inr, ok, ok_inj,
}
use cplusplus_projects.ServerApp.State.{Complete, ServerApp}
use cplusplus_projects.ServerApp.Handle.{Job, start_job, receive_request, end_job, response}

pub started :
    (s t : ServerApp) (conn : ℕ) (j : Job)
    → receive_request conn j s ≡ ok t
    → start_job conn j s ≡ t
unfolding receive_request
started s t conn j e = elim (Bool-cases (ltb_ℤ (pos 4) (s.running_jobs +ℤ pos 1))) [
  | inl many ↦ absurd (let f = rw (many, receive_request) at e in cc)
  | inr few ↦ elim (Bool-cases (ltb_ℤ j.run_time (pos 0))) [
    | inl past ↦ absurd (let f = rw (few, past, receive_request) at e in cc)
    | inr timely ↦ elim (Bool-cases (ltb_ℤ s.memory (s.used_memory +ℤ j.memory))) [
      | inl over ↦ absurd (let f = rw (few, timely, over, receive_request) at e in cc)
      | inr fits ↦ ok_inj (rw (few, timely, fits, receive_request) at e)
    ]
  ]
]

pub ended :
    (junk : ℤ) (s t : ServerApp) (c : Complete) → response junk c s ≡ ok t → end_job junk c s ≡ t
unfolding response
ended junk s t c e = elim (Bool-cases (ltb_ℤ (s.used_memory -ℤ c.need_memory) (pos 0))) [
  | inl a ↦ absurd (let f = rw (a, response) at e in cc)
  | inr b ↦ elim (Bool-cases (leb_ℤ s.output_data (pos 0))) [
    | inl a ↦ absurd (let f = rw (b, a, response) at e in cc)
    | inr d ↦ elim (Bool-cases (ltb_ℤ (s.running_jobs -ℤ pos 1) (pos 0))) [
      | inl a ↦ absurd (let f = rw (b, d, a, response) at e in cc)
      | inr g ↦ ok_inj (rw (b, d, g, response) at e)
    ]
  ]
]

pub ends :
    (junk : ℤ) (s : ServerApp) (c : Complete)
    → ltb_ℤ (s.used_memory -ℤ c.need_memory) (pos 0) ≡ false
    → leb_ℤ s.output_data (pos 0) ≡ false
    → ltb_ℤ (s.running_jobs -ℤ pos 1) (pos 0) ≡ false
    → response junk c s ≡ ok (end_job junk c s)
unfolding response
ends junk s c memory output jobs = rw (memory, output, jobs, response) refl

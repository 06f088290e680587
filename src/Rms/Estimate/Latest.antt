-- ===== src/Rms/Estimate/Latest.antt =====
-- Which of the times the estimate picks: sort_times, add_times and walk_times of Rms/Estimate.antt.
use mathlib.Core.List.{Mem, mem-cons_self, mem-cons_of_mem}
use mathlib.Core.Path.{subst}
use cplusplus_projects.Common.{
  sym, ltb→lt, >>=-eq-ok, ok_inj, ok, ap, ◌∙◌, ℕ, suc, ◌+◌, ◌≤◌, ◌<◌, ◌≡◌, refl, true, false, List,
  [], ◌∷◌, ℤ, pos, ◌≤ℤ◌, arith, All, length, length-append, Bool-cases, inl, inr, ltb, leb_ℤ, ◌==◌,
}
use cplusplus_projects.Rms.State.{Server}
use cplusplus_projects.Rms.Connect.Load.{loads}
use cplusplus_projects.Rms.Connect.Capacity.{IsSound}
use cplusplus_projects.Rms.Estimate.Sure.{IsWide, ready_nodes_total}
use cplusplus_projects.Rms.Estimate.{
  Nodes, add_node, resting_nodes, ready_nodes, running_servers, no_temp, add_times, insert_time,
  sort_times, walk_times, estimate,
}
use cplusplus_projects.Rms.Estimate.Bound.{step_time, resting-Within, resting-available_le}

abbrev pub Ascending : List ℤ → Type 0
Ascending [] = Unit
Ascending (t ∷ ts) = All (λ u. t ≤ℤ u) ts × Ascending ts

leb→le : (a b : ℤ) → leb_ℤ a b ≡ true → a ≤ℤ b
leb→le a b e = ground arith

not_leb→le : (a b : ℤ) → leb_ℤ a b ≡ false → b ≤ℤ a
not_leb→le a b e = ground arith

All-trans : (t u : ℤ) (ts : List ℤ) → t ≤ℤ u → All (λ x. u ≤ℤ x) ts → All (λ x. t ≤ℤ x) ts
All-trans t u [] l h = tt
All-trans t u (x ∷ ts) l h = (omega (arith, l, h.0), All-trans t u ts l h.1)

add_node-counted :
    (t : ℤ) (a : Nodes)
    → length a.comp_time ≡ a.available_nodes
    → length (add_node t a).comp_time ≡ (add_node t a).available_nodes
add_node-counted t a e = omega (arith, length-append a.comp_time (t ∷ []), e)

module _ (P : ℤ → Type 0) where
  insert_time-each : (t : ℤ) (ts : List ℤ) → P t → All P ts → All P (insert_time t ts)
  unfolding insert_time
  insert_time-each t [] p h = (p, tt)
  insert_time-each t (u ∷ ts) p h = elim (Bool-cases (leb_ℤ t u)) [
    | inl before ↦ rw before (p, h)
    | inr after ↦ rw after (h.0, insert_time-each t ts p h.1)
  ]

  sort_times-each : (ts : List ℤ) → All P ts → All P (sort_times ts)
  unfolding sort_times
  sort_times-each [] h = tt
  sort_times-each (t ∷ ts) h = insert_time-each t (sort_times ts) h.0 (sort_times-each ts h.1)

  each-insert_time : (t : ℤ) (ts : List ℤ) → All P (insert_time t ts) → P t × All P ts
  unfolding insert_time
  each-insert_time t [] = λ h. h
  each-insert_time t (u ∷ ts) = elim (Bool-cases (leb_ℤ t u)) [
    | inl before ↦ rw before (λ h. h)
    | inr after ↦ rw after (λ h. let rest = each-insert_time t ts h.1 in (rest.0, (h.0, rest.1)))
  ]

  each-sort_times : (ts : List ℤ) → All P (sort_times ts) → All P ts
  unfolding sort_times
  each-sort_times [] h = tt
  each-sort_times (t ∷ ts) h =
      let both = each-insert_time t (sort_times ts) h in (both.0, each-sort_times ts both.1)

  walk_times-one :
      (nodes needed : ℕ) (start : ℤ) (ts : List ℤ)
      → P start
      → All P ts
      → P (walk_times nodes needed start ts)
  unfolding walk_times
  walk_times-one nodes needed start [] p h = p
  walk_times-one nodes needed start (t ∷ ts) p h = elim (Bool-cases (suc needed == nodes)) [
    | inl enough ↦ rw (enough, walk_times) (rw (step_time start t) h.0)
    | inr more ↦
        rw (more, walk_times)
          (rw (step_time start t) (walk_times-one nodes (suc needed) t ts h.0 h.1))
  ]

insert_time-Ascending : (t : ℤ) (ts : List ℤ) → Ascending ts → Ascending (insert_time t ts)
unfolding insert_time
insert_time-Ascending t [] h = (tt, tt)
insert_time-Ascending t (u ∷ ts) h = elim (Bool-cases (leb_ℤ t u)) [
  | inl before ↦ rw before (((leb→le t u before, All-trans t u ts (leb→le t u before) h.0), h))
  | inr after ↦ rw after (
    insert_time-each (λ x. u ≤ℤ x) t ts (not_leb→le t u after) h.0,
    insert_time-Ascending t ts h.1,
  )
]

sort_times-Ascending : (ts : List ℤ) → Ascending (sort_times ts)
unfolding sort_times
sort_times-Ascending [] = tt
sort_times-Ascending (t ∷ ts) = insert_time-Ascending t (sort_times ts) (sort_times-Ascending ts)

length-insert_time : (t : ℤ) (ts : List ℤ) → length (insert_time t ts) ≡ suc (length ts)
unfolding insert_time
length-insert_time t [] = refl
length-insert_time t (u ∷ ts) = elim (Bool-cases (leb_ℤ t u)) [
  | inl before ↦ rw before refl
  | inr after ↦ rw after (ap suc (length-insert_time t ts))
]

length-sort_times : (ts : List ℤ) → length (sort_times ts) ≡ length ts
unfolding sort_times
length-sort_times [] = refl
length-sort_times (t ∷ ts) = length-insert_time t (sort_times ts) ∙ ap suc (length-sort_times ts)

walk_times-stop :
    (nodes needed : ℕ) (start t : ℤ) (ts : List ℤ)
    → (suc needed == nodes) ≡ true
    → walk_times nodes needed start (t ∷ ts) ≡ t
unfolding walk_times
walk_times-stop nodes needed start t ts e = rw (e, walk_times) (step_time start t)

walk_times-on :
    (nodes needed : ℕ) (start t : ℤ) (ts : List ℤ)
    → (suc needed == nodes) ≡ false
    → walk_times nodes needed start (t ∷ ts) ≡ walk_times nodes (suc needed) t ts
unfolding walk_times
walk_times-on nodes needed start t ts e =
    rw (e, walk_times) (ap (λ u. walk_times nodes (suc needed) u ts) (step_time start t))

All-empty : (P : ℤ → Type 0) (ts : List ℤ) → length ts ≤ 0 → All P ts
All-empty P [] l = tt
All-empty P (t ∷ ts) l = absurd (omega (arith, l))

-- With no more times than the nodes still needed, the walk ends at the latest.
walk_times-latest :
    (nodes needed : ℕ) (start : ℤ) (ts : List ℤ)
    → Ascending ts
    → needed + length ts ≤ nodes
    → All (λ t. t ≤ℤ walk_times nodes needed start ts) ts
walk_times-latest nodes needed start [] h l = tt
walk_times-latest nodes needed start (t ∷ ts) h l = elim (Bool-cases (suc needed == nodes)) [
  | inl enough ↦
      subst (λ e. All (λ x. x ≤ℤ e) (t ∷ ts)) (sym (walk_times-stop nodes needed start t ts enough))
        (omega arith, All-empty (λ x. x ≤ℤ t) ts (ground arith))
  | inr more ↦
      subst (λ e. All (λ x. x ≤ℤ e) (t ∷ ts)) (sym (walk_times-on nodes needed start t ts more))
        (
          walk_times-one (λ u. t ≤ℤ u) nodes (suc needed) t ts (omega arith) h.0,
          walk_times-latest nodes (suc needed) t ts h.1 (omega (arith, l)),
        )
]

add_times-counted :
    (nodes : ℕ) (ts : List ℤ) (a : Nodes)
    → length a.comp_time ≡ a.available_nodes
    → length (add_times nodes ts a).comp_time ≡ (add_times nodes ts a).available_nodes
unfolding add_times
add_times-counted nodes [] a e = e
add_times-counted nodes (t ∷ ts) a e =
    let f = add_node-counted t a e in
    elim (Bool-cases (suc a.available_nodes == nodes)) [
      | inl enough ↦ rw (enough, add_times) f
      | inr short ↦ rw (short, add_times) (add_times-counted nodes ts (add_node t a) f)
    ]

add_times-available_le :
    (nodes : ℕ) (ts : List ℤ) (a : Nodes)
    → a.available_nodes < nodes
    → (add_times nodes ts a).available_nodes ≤ nodes
unfolding add_times
add_times-available_le nodes [] a l = omega arith
add_times-available_le nodes (t ∷ ts) a l = elim (Bool-cases (suc a.available_nodes == nodes)) [
  | inl enough ↦ rw (enough, add_times) (omega (arith, l))
  | inr short ↦
      rw (short, add_times) (add_times-available_le nodes ts (add_node t a) (ground arith))
]

ready_nodes-length :
    (nodes : ℕ) (cores : ℤ) (xs : List Server) {a : Nodes}
    → 0 < nodes
    → ready_nodes nodes cores xs ≡ ok a
    → length a.comp_time ≤ nodes
unfolding ready_nodes
ready_nodes-length nodes cores xs {a} p e =
    let b = resting_nodes nodes xs in
    let counted = (resting-Within nodes xs).counted in
    elim (Bool-cases (ltb b.available_nodes nodes)) [
      | inl short ↦
          let (t, u, v) = >>=-eq-ok (running_servers cores xs no_temp) _ (rw short at e) in
          let ts = sort_times t.server_times in
          let bound = add_times-available_le nodes ts b (ltb→lt _ _ short) in
          rw (← ok_inj v) (omega (arith, add_times-counted nodes ts b counted, bound))
      | inr enough ↦
          rw (← ok_inj (rw enough at e)) (omega (arith, counted, resting-available_le nodes xs p))
    ]

each-Mem : (us ts : List ℤ) → ((t : ℤ) → Mem t ts → Mem t us) → All (λ t. Mem t us) ts
each-Mem us [] f = tt
each-Mem us (t ∷ ts) f = (f t mem-cons_self, each-Mem us ts (λ u m. f u (mem-cons_of_mem t m)))

-- The outcome of the estimate, with the times at which servers are ready for the first job.
pub record Latest (nodes : ℕ) (cores : ℤ) (xs : List Server) : Type 0 where
  pub ready : Nodes
  pub start : ℤ
  pub ready_returns : ready_nodes nodes cores xs ≡ ok ready
  pub returns : estimate nodes cores xs ≡ ok start
  pub few : length ready.comp_time ≤ nodes
  pub not_before : All (λ t. t ≤ℤ start) ready.comp_time
  pub one_of : Mem start (pos 0 ∷ ready.comp_time)

-- For a positive number of nodes, on servers whose cores in use are those of their jobs, none of
-- them with fewer cores than the job needs, the estimate succeeds: no job is read after its message
-- was deleted. The times at which servers are ready that it collects are at most as many as the
-- nodes; the estimated start is not before any of them, and it is one of them or zero.
pub estimate-IsLatest :
    (nodes : ℕ) (cores : ℤ) (xs : List Server)
    → 0 < nodes
    → All IsSound (loads xs)
    → All (IsWide cores) (loads xs)
    → Latest nodes cores xs
unfolding estimate
estimate-IsLatest nodes cores xs p sound wide =
    let (a, e) = ready_nodes_total nodes cores xs sound wide in
    let ts = a.comp_time in
    let short = ready_nodes-length nodes cores xs p e in
    let t = walk_times nodes 0 (pos 0) (sort_times ts) in
    record {
      ready = a;
      start = t;
      ready_returns = e;
      returns = rw e refl;
      few = short;
      not_before =
          each-sort_times (λ u. u ≤ℤ t) ts
            (walk_times-latest nodes 0 (pos 0) (sort_times ts) (sort_times-Ascending ts)
              (omega (arith, length-sort_times ts, short)));
      one_of =
          walk_times-one (λ u. Mem u (pos 0 ∷ ts)) nodes 0 (pos 0) (sort_times ts) mem-cons_self
            (sort_times-each (λ u. Mem u (pos 0 ∷ ts)) ts
              (each-Mem (pos 0 ∷ ts) ts (λ u m. mem-cons_of_mem (pos 0) m)));
    }

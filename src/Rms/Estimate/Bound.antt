-- ===== src/Rms/Estimate/Bound.antt =====
-- What the estimate says when resting servers suffice, and in general.
use Prim.Native.Nat.{min}
use cplusplus_projects.Common.{
  ltb→lt, ℕ, suc, ◌+◌, ◌≤◌, ◌<◌, ◌≡◌, refl, Bool, List, [], ◌∷◌, ◌++◌, ℤ, pos, ◌+ℤ◌, ◌-ℤ◌, ◌≤ℤ◌,
  arith, All, length, length-append, Bool-cases, inl, inr, +ℤ_parts, -ℤ_parts, eq_of_parts, ltb, ap,
  false, ok, ◌>>=◌, leb_ℤ, ◌==◌, if◌then◌else◌,
}
use cplusplus_projects.Rms.State.{ServerState, Server, seconds, is_idle, Job, Rms}
use cplusplus_projects.Rms.Estimate.{
  Nodes, add_node, collect, is_standby, is_hybernated, when_short, resting_nodes, ready_nodes,
  insert_time, sort_times, walk_times, estimate, get_estimated_start_time, first_job,
}

abbrev pub count_state : (ServerState → Bool) → List Server → ℕ
count_state test [] = 0
count_state test (s ∷ xs) =
    let rest = count_state test xs in if test s.state then suc rest else rest

-- `start + (t - start)` is `t`.
pub step_time : (start t : ℤ) → start +ℤ (t -ℤ start) ≡ t
step_time start t = eq_of_parts _ _ (omega (arith, +ℤ_parts start (t -ℤ start), -ℤ_parts t start))

-- The times collected are as many as the nodes counted, and none is after the bound.
pub record Within (bound : ℤ) (a : Nodes) : Type 0 where
  pub counted : length a.comp_time ≡ a.available_nodes
  pub bounded : All (λ t. t ≤ℤ bound) a.comp_time

All-snoc :
    (bound t : ℤ) (ts : List ℤ)
    → All (λ u. u ≤ℤ bound) ts
    → t ≤ℤ bound
    → All (λ u. u ≤ℤ bound) (ts ++ t ∷ [])
All-snoc bound t [] h l = (l, tt)
All-snoc bound t (u ∷ ts) h l = (h.0, All-snoc bound t ts h.1 l)

add_node-Within :
    (bound t : ℤ) (a : Nodes) → t ≤ℤ bound → Within bound a → Within bound (add_node t a)
add_node-Within bound t a l w = record {
  counted = omega (arith, length-append a.comp_time (t ∷ []), w.counted);
  bounded = All-snoc bound t a.comp_time w.bounded l;
}

collect-Within :
    (bound : ℤ) (test : ServerState → Bool) (t : ℤ) (nodes : ℕ) (xs : List Server) (a : Nodes)
    → t ≤ℤ bound
    → Within bound a
    → Within bound (collect test t nodes xs a)
unfolding collect
collect-Within bound test t nodes [] a l w = w
collect-Within bound test t nodes (s ∷ xs) a l w = elim (Bool-cases (test s.state)) [
  | inl there ↦ elim (Bool-cases (suc a.available_nodes == nodes)) [
    | inl enough ↦ rw (there, enough, collect) (add_node-Within bound t a l w)
    | inr short ↦
        rw (there, short, collect)
          (collect-Within bound test t nodes xs (add_node t a) l (add_node-Within bound t a l w))
  ]
  | inr off ↦ rw (off, collect) (collect-Within bound test t nodes xs a l w)
]

-- Collecting stops at `nodes`, and otherwise counts every server of the state.
collect-available :
    (test : ServerState → Bool) (t : ℤ) (nodes : ℕ) (xs : List Server) (a : Nodes)
    → a.available_nodes < nodes
    → (collect test t nodes xs a).available_nodes
      ≡ min nodes (a.available_nodes + count_state test xs)
unfolding collect
collect-available test t nodes [] a l = omega arith
collect-available test t nodes (s ∷ xs) a l = elim (Bool-cases (test s.state)) [
  | inl there ↦ elim (Bool-cases (suc a.available_nodes == nodes)) [
    | inl enough ↦ rw (there, enough, collect) (ground arith)
    | inr short ↦
        let rest = collect-available test t nodes xs (add_node t a) (ground arith) in
        rw (there, short, collect) (omega (arith, rest))
  ]
  | inr off ↦ rw (off, collect) (collect-available test t nodes xs a l)
]

abbrev stage : (ServerState → Bool) → ℤ → ℕ → List Server → Nodes → Nodes
stage test t nodes xs a = when_short nodes a (collect test t nodes xs a)

stage-available :
    (test : ServerState → Bool) (t : ℤ) (nodes : ℕ) (xs : List Server) (a : Nodes)
    → a.available_nodes ≤ nodes
    → (stage test t nodes xs a).available_nodes
      ≡ min nodes (a.available_nodes + count_state test xs)
stage-available test t nodes xs a l = elim (Bool-cases (ltb a.available_nodes nodes)) [
  | inl short ↦ rw short (collect-available test t nodes xs a (ltb→lt _ _ short))
  | inr enough ↦ rw enough (ground arith)
]

stage-Within :
    (bound : ℤ) (test : ServerState → Bool) (t : ℤ) (nodes : ℕ) (xs : List Server) (a : Nodes)
    → t ≤ℤ bound
    → Within bound a
    → Within bound (stage test t nodes xs a)
stage-Within bound test t nodes xs a l w = elim (Bool-cases (ltb a.available_nodes nodes)) [
  | inl short ↦ rw short (collect-Within bound test t nodes xs a l w)
  | inr enough ↦ rw enough w
]

insert_time-All :
    (bound t : ℤ) (ts : List ℤ)
    → t ≤ℤ bound
    → All (λ u. u ≤ℤ bound) ts
    → All (λ u. u ≤ℤ bound) (insert_time t ts)
unfolding insert_time
insert_time-All bound t [] l h = (l, tt)
insert_time-All bound t (u ∷ ts) l h = elim (Bool-cases (leb_ℤ t u)) [
  | inl before ↦ rw before (l, h)
  | inr after ↦ rw after (h.0, insert_time-All bound t ts l h.1)
]

sort_times-All :
    (bound : ℤ) (ts : List ℤ) → All (λ u. u ≤ℤ bound) ts → All (λ u. u ≤ℤ bound) (sort_times ts)
unfolding sort_times
sort_times-All bound [] h = tt
sort_times-All bound (t ∷ ts) h =
    insert_time-All bound t (sort_times ts) h.0 (sort_times-All bound ts h.1)

walk_times-le :
    (bound : ℤ) (nodes needed : ℕ) (start : ℤ) (ts : List ℤ)
    → start ≤ℤ bound
    → All (λ u. u ≤ℤ bound) ts
    → walk_times nodes needed start ts ≤ℤ bound
unfolding walk_times
walk_times-le bound nodes needed start [] l h = l
walk_times-le bound nodes needed start (t ∷ ts) l h = elim (Bool-cases (suc needed == nodes)) [
  | inl enough ↦ rw (enough, walk_times) (rw (step_time start t) h.0)
  | inr more ↦
      rw (more, walk_times)
        (rw (step_time start t) (walk_times-le bound nodes (suc needed) t ts h.0 h.1))
]

abbrev no_nodes : Nodes
no_nodes = record { available_nodes = 0; comp_time = [] }

abbrev idle_nodes : ℕ → List Server → Nodes
idle_nodes nodes xs = collect is_idle (pos 0) nodes xs no_nodes

pub resting-Within : (nodes : ℕ) (xs : List Server) → Within (seconds 90) (resting_nodes nodes xs)
unfolding resting_nodes
resting-Within nodes xs =
    let a = idle_nodes nodes xs in
    let wa =
      collect-Within (seconds 90) is_idle (pos 0) nodes xs no_nodes (omega arith)
        (record { counted = refl; bounded = tt }) in
    let wb = stage-Within (seconds 90) is_standby (seconds 5) nodes xs a (omega arith) wa in
    stage-Within (seconds 90) is_hybernated (seconds 90) nodes xs
      (stage is_standby (seconds 5) nodes xs a) (omega arith) wb

pub resting-available_le :
    (nodes : ℕ) (xs : List Server) → 0 < nodes → (resting_nodes nodes xs).available_nodes ≤ nodes
unfolding resting_nodes
resting-available_le nodes xs p =
    let a = idle_nodes nodes xs in
    let b = stage is_standby (seconds 5) nodes xs a in
    let ea = collect-available is_idle (pos 0) nodes xs no_nodes p in
    let eb = stage-available is_standby (seconds 5) nodes xs a (omega (arith, ea)) in
    let ec = stage-available is_hybernated (seconds 90) nodes xs b (omega (arith, eb)) in
    omega (arith, ea, eb, ec)

resting-available :
    (nodes : ℕ) (xs : List Server)
    → 0 < nodes
    → nodes ≤ count_state is_idle xs + count_state is_standby xs + count_state is_hybernated xs
    → (resting_nodes nodes xs).available_nodes ≡ nodes
unfolding resting_nodes
resting-available nodes xs p h =
    let a = idle_nodes nodes xs in
    let b = stage is_standby (seconds 5) nodes xs a in
    let ea = collect-available is_idle (pos 0) nodes xs no_nodes p in
    let eb = stage-available is_standby (seconds 5) nodes xs a (omega (arith, ea)) in
    let ec = stage-available is_hybernated (seconds 90) nodes xs b (omega (arith, eb)) in
    omega (arith, ea, eb, ec)

-- For a positive number of nodes that the idle, standby and hibernated servers suffice for, the
-- estimate succeeds and the estimated start of the first job is at most 90 seconds. That is counted
-- from time zero: the current time does not enter the estimate.
pub estimate-resting :
    (nodes : ℕ) (cores : ℤ) (xs : List Server)
    → 0 < nodes
    → nodes ≤ count_state is_idle xs + count_state is_standby xs + count_state is_hybernated xs
    → (t : ℤ) × (estimate nodes cores xs ≡ ok t) × (t ≤ℤ seconds 90)
unfolding estimate ready_nodes
estimate-resting nodes cores xs p h =
    let a = resting_nodes nodes xs in
    let enough : ltb a.available_nodes nodes ≡ false =
      ground (arith, resting-available nodes xs p h) in
    (
      walk_times nodes 0 (pos 0) (sort_times a.comp_time),
      rw enough refl,
      walk_times-le (seconds 90) nodes 0 (pos 0) (sort_times a.comp_time) (omega arith)
          (sort_times-All (seconds 90) a.comp_time (resting-Within nodes xs).bounded),
    )

pub get_estimated_start_time-cons :
    (r : Rms) (j : Job) (js : List Job)
    → r.job_queue ≡ j ∷ js
    → get_estimated_start_time r ≡ estimate j.nodes j.cores r.servers
unfolding get_estimated_start_time first_job
get_estimated_start_time-cons r j js e =
    ap (λ (q : List Job). first_job q >>= λ k. estimate k.nodes k.cores r.servers) e

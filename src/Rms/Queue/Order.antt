-- ===== src/Rms/Queue/Order.antt =====
-- Where a job goes in the queue, and the order that the queue keeps.
use cplusplus_projects.Common.{
  ◌≡◌, refl, ap, ◌⊎◌, inl, inr, Bool, true, false, List, [], ◌∷◌, ◌++◌, ◌≤ℤ◌, ◌<ℤ◌, arith, All,
  Bool-cases, if◌then◌else◌,
}
use cplusplus_projects.Rms.State.{Job}
use cplusplus_projects.Rms.Queue.{
  is_interactive, insert_before_first, after_interactive, lower_priority, enqueue, enqueue_job,
}

-- `x` may stand before `y`: it is interactive, or neither is and its priority is as high.
abbrev pub Precedes : Job → Job → Type 0
Precedes x y = (is_interactive x ≡ true) ⊎ ((is_interactive y ≡ false) × (y.priority ≤ℤ x.priority))

-- `y` must make way for `m`: it is not interactive, and `m` is or has a higher priority.
abbrev pub Yields : Job → Job → Type 0
Yields m y = (is_interactive y ≡ false) × ((is_interactive m ≡ true) ⊎ (y.priority <ℤ m.priority))

abbrev pub IsOrdered : List Job → Type 0
IsOrdered [] = Unit
IsOrdered (x ∷ xs) = All (Precedes x) xs × IsOrdered xs

All-Precedes-trans :
    (x y : Job) (xs : List Job) → Precedes x y → All (Precedes y) xs → All (Precedes x) xs
All-Precedes-trans x y [] p h = tt
All-Precedes-trans x y (z ∷ xs) p h = (ground (arith, h.0), All-Precedes-trans x y xs p h.1)

Yields-all : (m y : Job) (ys : List Job) → Yields m y → All (Precedes y) ys → All (Yields m) ys
Yields-all m y [] w h = tt
Yields-all m y (z ∷ ys) w h = (ground (arith, h.0), Yields-all m y ys w h.1)

-- The test of the loop that `enqueue_job` runs for `m`.
abbrev pub makes_way : Job → Job → Bool
makes_way m = if is_interactive m then after_interactive else lower_priority m.priority

makes_way-Yields : (m y : Job) → makes_way m y ≡ true → Yields m y
makes_way-Yields m y h = ground arith

stays-Precedes : (m y : Job) → makes_way m y ≡ false → Precedes y m
stays-Precedes m y h = ground arith

pub enqueue_job-insert :
    (q : List Job) (m : Job) → enqueue_job q m ≡ insert_before_first (makes_way m) m q
unfolding enqueue_job enqueue
enqueue_job-insert [] m = ground arith
enqueue_job-insert (x ∷ xs) m = ground arith

pub record Inserted (q : List Job) (m : Job) (r : List Job) : Type 0 where
  pub front : List Job
  pub back : List Job
  pub whole : q ≡ front ++ back
  pub result : r ≡ front ++ (m ∷ back)
  pub ahead : All (λ x. Precedes x m) front
  pub behind : All (Yields m) back

insert_before_first-Inserted :
    (q : List Job) (m : Job) → IsOrdered q → Inserted q m (insert_before_first (makes_way m) m q)
unfolding insert_before_first
insert_before_first-Inserted [] m o = record {
  front = [];
  back = [];
  whole = refl;
  result = refl;
  ahead = tt;
  behind = tt;
}
insert_before_first-Inserted (x ∷ xs) m o = elim (Bool-cases (makes_way m x)) [
  | inl there ↦ rw there (record {
    front = [];
    back = x ∷ xs;
    whole = refl;
    result = refl;
    ahead = tt;
    behind = (makes_way-Yields m x there, Yields-all m x xs (makes_way-Yields m x there) o.0);
  })
  | inr on ↦
      let rest = insert_before_first-Inserted xs m o.1 in
      rw on (record {
        front = x ∷ rest.front;
        back = rest.back;
        whole = ap (◌∷◌ x) rest.whole;
        result = ap (◌∷◌ x) rest.result;
        ahead = (stays-Precedes m x on, rest.ahead);
        behind = rest.behind;
      })
]

-- On an ordered queue a new job goes behind exactly the jobs that may stand before it, so behind
-- all of its own priority, and before those that must make way; the others keep their order.
pub enqueue_job-Inserted : (q : List Job) (m : Job) → IsOrdered q → Inserted q m (enqueue_job q m)
enqueue_job-Inserted q m o = rw (enqueue_job-insert q m) (insert_before_first-Inserted q m o)

All-insert :
    (x m : Job) (f : Job → Bool) (q : List Job)
    → Precedes x m
    → All (Precedes x) q
    → All (Precedes x) (insert_before_first f m q)
unfolding insert_before_first
All-insert x m f [] p h = (p, tt)
All-insert x m f (y ∷ q) p h = ground (arith, All-insert x m f q p h.1)

Yields-Precedes : (m : Job) (ys : List Job) → All (Yields m) ys → All (Precedes m) ys
Yields-Precedes m [] h = tt
Yields-Precedes m (y ∷ ys) h = (ground (arith, h.0), Yields-Precedes m ys h.1)

insert_before_first-IsOrdered :
    (q : List Job) (m : Job) → IsOrdered q → IsOrdered (insert_before_first (makes_way m) m q)
unfolding insert_before_first
insert_before_first-IsOrdered [] m o = (tt, tt)
insert_before_first-IsOrdered (x ∷ xs) m o = elim (Bool-cases (makes_way m x)) [
  | inl there ↦
      let w = makes_way-Yields m x there in
      rw there (Yields-Precedes m (x ∷ xs) (w, Yields-all m x xs w o.0), o)
  | inr on ↦ rw on (
    All-insert x m (makes_way m) xs (stays-Precedes m x on) o.0,
    insert_before_first-IsOrdered xs m o.1,
  )
]

-- Adding a job to an ordered queue keeps it ordered: interactive jobs first, then by falling
-- priority.
pub enqueue_job-IsOrdered : (q : List Job) (m : Job) → IsOrdered q → IsOrdered (enqueue_job q m)
enqueue_job-IsOrdered q m o = rw (enqueue_job-insert q m) (insert_before_first-IsOrdered q m o)

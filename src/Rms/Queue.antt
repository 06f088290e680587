-- ===== src/Rms/Queue.antt =====
-- enqueue, enqueueJob and isQueueEmpty of SuperComRmsApp.cc. The job queue is the list of its
-- jobs, the front first: OMNeT++'s cQueue, whose `insert` adds at the back and `insertBefore`
-- before a given entry.
pub mod Order
use cplusplus_projects.Common.{
  Bool, true, false, not, ◌&&◌, List, [], ◌∷◌, ℤ, pos, ◌==ℤ◌, ltb_ℤ, if◌then◌else◌,
}
use cplusplus_projects.Rms.State.{Job}

abbrev pub is_interactive : Job → Bool
is_interactive j = j.priority ==ℤ pos 0

-- The two loops of `enqueue`: before the first job that passes the test, else at the back.
unfoldable pub insert_before_first : (Job → Bool) → Job → List Job → List Job
insert_before_first test m [] = m ∷ []
insert_before_first test m (x ∷ xs) =
    if test x then m ∷ x ∷ xs else x ∷ insert_before_first test m xs

abbrev pub after_interactive : Job → Bool
after_interactive j = not (is_interactive j)

abbrev pub lower_priority : ℤ → Job → Bool
lower_priority p j = not (is_interactive j) && ltb_ℤ j.priority p

unfoldable pub enqueue : List Job → Job → Bool → Bool → ℤ → List Job
unfolding insert_before_first
enqueue [] m queue_begin inter_active p = m ∷ []
enqueue (x ∷ xs) m queue_begin inter_active p =
    if queue_begin && not inter_active
    then m ∷ x ∷ xs
    else (if queue_begin && inter_active
        then insert_before_first after_interactive m (x ∷ xs)
        else insert_before_first (lower_priority p) m (x ∷ xs))

unfoldable pub enqueue_job : List Job → Job → List Job
enqueue_job q m =
    if is_interactive m
    then enqueue q m true true m.priority
    else enqueue q m false false m.priority

unfoldable pub is_queue_empty : List Job → Bool
is_queue_empty [] = true
is_queue_empty (x ∷ xs) = false

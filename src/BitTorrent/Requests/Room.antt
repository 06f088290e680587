-- ===== src/BitTorrent/Requests/Room.antt =====
-- When a request can be added.
use cplusplus_projects.Common.{
  ◌≡◌, ◌≤◌, true, [], ◌∷◌, ◌++◌, if◌then◌else◌, ok, fault, Fault, arith, length, length-append,
}
use cplusplus_projects.BitTorrent.Requests.{
  RequestEntry, RequestState, checked, add_request, can_request_more,
}

-- The vector keeps to its maximum, if it is checked.
abbrev pub Fitting : RequestState → Type 0
Fitting s = s.check_size ≡ true → length s.request_vector ≤ s.max_size

-- With the check of the size on, addRequest succeeds exactly when canRequestMore holds, and then
-- the request is the last of the vector; otherwise it fails with an exceeded queue.
pub add_request-room :
    (e : RequestEntry) (s : RequestState)
    → s.check_size ≡ true
    → add_request e s ≡ (
        if can_request_more s
        then ok (record s { request_vector = s.request_vector ++ e ∷ [] })
        else fault Fault.queue_full)
unfolding add_request checked can_request_more
add_request-room e s c = let l = length-append s.request_vector (e ∷ []) in ground (arith, l)

pub add_request-Fitting :
    (e : RequestEntry) (s t : RequestState) → add_request e s ≡ ok t → Fitting t
unfolding add_request checked
add_request-Fitting e s t h c = ground (arith, h, c)

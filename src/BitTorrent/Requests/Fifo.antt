-- ===== src/BitTorrent/Requests/Fifo.antt =====
-- insert and getFirstCome serve the requests in the order of their arrival.
use mathlib.Core.List.{reverse, reverse-append}
use cplusplus_projects.Common.{
  ℕ, ◌≡◌, refl, ap, ◌∙◌, sym, false, List, [], ◌∷◌, ◌++◌, Result, ok, ◌>>=◌,
}
use cplusplus_projects.BitTorrent.Requests.{
  RequestEntry, RequestState, no_request, checked, insert_request, pop_back, get_first_come,
}

-- A request arrives, or the next one is taken out to be served.
pub data Op : Type 0 where
  arrive : RequestEntry → Op
  serve : Op

-- What is taken out of `s` by a sequence of operations.
unfoldable pub served : RequestState → List Op → Result (List RequestEntry)
served s [] = ok []
served s (arrive e ∷ ops) = insert_request e s >>= λ t. served t ops
served s (serve ∷ ops) = served (get_first_come s).1 ops >>= λ es. ok ((get_first_come s).0 ∷ es)

-- The same of a first-in-first-out queue, whose front is the head of the list.
abbrev pub served_in_order : List RequestEntry → List Op → List RequestEntry
served_in_order q [] = []
served_in_order q (arrive e ∷ ops) = served_in_order (q ++ e ∷ []) ops
served_in_order [] (serve ∷ ops) = no_request ∷ served_in_order [] ops
served_in_order (e ∷ q) (serve ∷ ops) = e ∷ served_in_order q ops

abbrev pub waiting : RequestState → List RequestEntry
waiting s = reverse s.request_vector

pop_back-append :
    (e : RequestEntry) (es : List RequestEntry)
    → (pop_back e es).1 ++ (pop_back e es).0 ∷ [] ≡ e ∷ es
unfolding pop_back
pop_back-append e [] = refl
pop_back-append e (f ∷ fs) = ap (◌∷◌ e) (pop_back-append f fs)

waiting-pop_back :
    (e : RequestEntry) (es : List RequestEntry)
    → reverse (e ∷ es) ≡ (pop_back e es).0 ∷ reverse (pop_back e es).1
waiting-pop_back e es =
    ap reverse (sym (pop_back-append e es))
    ∙ reverse-append (pop_back e es).1 ((pop_back e es).0 ∷ [])

served-FromVector :
    (v : List RequestEntry) (m : ℕ) (ops : List Op)
    → served (record { request_vector = v; max_size = m; check_size = false }) ops
      ≡ ok (served_in_order (reverse v) ops)
unfolding served insert_request checked get_first_come
served-FromVector v m [] = refl
served-FromVector v m (arrive e ∷ ops) =
    served-FromVector (e ∷ v) m ops
    ∙ ap (λ q. ok (served_in_order q ops)) (reverse-append (e ∷ []) v)
served-FromVector [] m (serve ∷ ops) = rw (served-FromVector [] m ops) refl
served-FromVector (e ∷ es) m (serve ∷ ops) =
    rw (served-FromVector (pop_back e es).1 m ops)
      (ap (λ q. ok (served_in_order q (serve ∷ ops))) (sym (waiting-pop_back e es)))

-- With the check of the size off, as for incoming requests, any sequence of insertions and of
-- removals by getFirstCome takes out what a first-in-first-out queue with the same contents does,
-- and from an empty one the empty request.
pub served-InOrder :
    (s : RequestState) (ops : List Op)
    → s.check_size ≡ false
    → served s ops ≡ ok (served_in_order (waiting s) ops)
served-InOrder s ops e =
    ap (λ c. served (record s { check_size = c }) ops) e
    ∙ served-FromVector s.request_vector s.max_size ops

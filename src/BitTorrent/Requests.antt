-- ===== src/BitTorrent/Requests.antt =====
-- RequestState of BitTorrent/BTUtils.cc: the requests for blocks that a connection has pending. The
-- result -1 of a search is `none`; a peer's ID, a pointer to its text, is a number.
pub mod Fifo
pub mod Room
pub mod Found
use cplusplus_projects.Common.{
  ℕ, zero, suc, Bool, true, false, not, ◌&&◌, List, [], ◌∷◌, ◌++◌, Option, none, some, ℤ, pos,
  negsuc, ltb_ℤ, ◌==ℤ◌, ltb, leb, if◌then◌else◌, Result, ok, fault, Fault, length, get_elem?,
}

-- RequestEntry.
pub record RequestEntry : Type 0 where
  pub index : ℤ
  pub begin : ℤ
  pub length : ℤ
  pub timestamp : ℤ
  pub peer_id : Option ℕ

-- RequestEntry().
abbrev pub no_request : RequestEntry
no_request = record {
  index = negsuc 0;
  begin = negsuc 0;
  length = negsuc 0;
  timestamp = negsuc 0;
  peer_id = none;
}

-- RequestState.
pub record RequestState : Type 0 where
  pub request_vector : List RequestEntry
  pub max_size : ℕ
  pub check_size : Bool

-- The check behind both insertions: the vector may not be longer than `max_size`.
unfoldable pub checked : RequestState → Result RequestState
checked s =
    if s.check_size && ltb s.max_size (length s.request_vector)
    then fault Fault.queue_full
    else ok s

unfoldable pub add_request : RequestEntry → RequestState → Result RequestState
add_request e s = checked (record s { request_vector = s.request_vector ++ e ∷ [] })

-- insert: at the front.
unfoldable pub insert_request : RequestEntry → RequestState → Result RequestState
insert_request e s = checked (record s { request_vector = e ∷ s.request_vector })

abbrev pub is_request : ℤ → ℤ → RequestEntry → Bool
is_request i b e = (e.index ==ℤ i) && (e.begin ==ℤ b)

-- The loop of findRequest, from number `k` on.
unfoldable pub find_request_from : ℤ → ℤ → ℕ → List RequestEntry → Option ℕ
find_request_from i b k [] = none
find_request_from i b k (e ∷ es) =
    if is_request i b e then some k else find_request_from i b (suc k) es

unfoldable pub find_request : ℤ → ℤ → RequestState → Option ℕ
find_request i b s = find_request_from i b 0 s.request_vector

-- requestVector.erase(requestVector.begin() + i).
unfoldable pub erase_at {ℓ} : {A : Type ℓ} → ℕ → List A → List A
erase_at i [] = []
erase_at zero (x ∷ xs) = xs
erase_at (suc i) (x ∷ xs) = x ∷ erase_at i xs

-- removeRequest(index, begin, silently): without a request to remove, an error, unless it is silent
-- or the vector is empty.
unfoldable pub remove_request : ℤ → ℤ → Bool → RequestState → Result RequestState
remove_request i b silently s = elim (find_request i b s) [
  | some k ↦ ok (record s { request_vector = erase_at k s.request_vector })
  | none ↦
      if not silently && ltb 0 (length s.request_vector)
      then fault Fault.request_not_found
      else ok s
]

-- getRequestEntry: its test holds for every unsigned number, so the vector is always read.
unfoldable pub get_request_entry : ℕ → RequestState → Result RequestEntry
get_request_entry i s = elim (get_elem? s.request_vector i) [
  | none ↦ fault Fault.bad_index
  | some e ↦ ok e
]

-- The last entry of a vector, and the vector without it.
unfoldable pub pop_back : RequestEntry → List RequestEntry → RequestEntry × List RequestEntry
pop_back e [] = (e, [])
pop_back e (f ∷ fs) = let (x, rest) = pop_back f fs in (x, e ∷ rest)

-- getFirstCome.
unfoldable pub get_first_come : RequestState → RequestEntry × RequestState
get_first_come s = elim s.request_vector [
  | [] ↦ (no_request, s)
  | e ∷ es ↦ (let (x, rest) = pop_back e es in (x, record s { request_vector = rest }))
]

unfoldable pub can_request_more : RequestState → Bool
can_request_more s = ltb (length s.request_vector) s.max_size

-- maxBlockRequested, with the maximum so far.
unfoldable pub max_block_from : ℤ → ℤ → List RequestEntry → ℤ
max_block_from piece m [] = m
max_block_from piece m (e ∷ es) =
    max_block_from piece (if (e.index ==ℤ piece) && ltb_ℤ m e.begin then e.begin else m) es

unfoldable pub max_block_requested : ℤ → RequestState → ℤ
max_block_requested piece s = max_block_from piece (negsuc 0) s.request_vector

-- std::numeric_limits<int>::max().
abbrev pub int_max : ℤ
int_max = pos 2_147_483_647

-- minBlockRequested, with the minimum so far.
unfoldable pub min_block_from : ℤ → ℤ → List RequestEntry → ℤ
min_block_from piece m [] = m
min_block_from piece m (e ∷ es) =
    min_block_from piece (if (e.index ==ℤ piece) && ltb_ℤ e.begin m then e.begin else m) es

unfoldable pub min_block_requested : ℤ → RequestState → ℤ
min_block_requested piece s =
    let m = min_block_from piece int_max s.request_vector in if ltb_ℤ m int_max then m else negsuc 0

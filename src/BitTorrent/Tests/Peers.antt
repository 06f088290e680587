-- ===== src/BitTorrent/Tests/Peers.antt =====
-- Runs on a few requests, on two bit fields of three pieces, and on a client with three peers.
use cplusplus_projects.Common.{
  is_ok, leb, filter, ◌||◌, ◌+◌, ◌==◌, ℕ, ◌-◌, ◌*◌, ◌≡◌, ◌≤◌, ◌<◌, ◌⊎◌, refl, Bool, true, false,
  not, ◌&&◌, List, [], ◌∷◌, ◌++◌, ℤ, pos, ◌+ℤ◌, some, if◌then◌else◌, ltb, length, All, count_if,
  arith, ok, fault, Fault, AllDistinct,
}
use cplusplus_projects.BitTorrent.BitField.{BitField, new_bit_field, new_pieces}
use cplusplus_projects.BitTorrent.Requests.{
  RequestEntry, RequestState, add_request, remove_request, can_request_more, checked,
}
use cplusplus_projects.BitTorrent.Requests.Fifo.{
  arrive, serve, served, served_in_order, waiting, served-InOrder,
}
use cplusplus_projects.BitTorrent.Requests.Found.{
  First, NoneOf, remove_request_lem, remove_request-add_request,
}
use cplusplus_projects.BitTorrent.Requests.Room.{add_request-room}
use cplusplus_projects.BitTorrent.Remote.{from_message, put_in_message}
use cplusplus_projects.BitTorrent.Remote.Told.{from_message-Told}
use cplusplus_projects.BitTorrent.Pieces.{PieceFreqEntry, candidates, is_candidate, select_piece}
use cplusplus_projects.BitTorrent.Pieces.Offered.{Offer, Selected, holds, select_piece-Selected}
use cplusplus_projects.BitTorrent.Wire.{Handler, Wire, handshake_complete, normal}
use cplusplus_projects.BitTorrent.Choking.{choking_algorithm, choke_worst_downloader}
use cplusplus_projects.BitTorrent.Optimistic.{
  rotate, unchoke_candidates, choose_candidate, take_out, keep_opt_unchoked,
  optimistic_un_choking_algorithm, candidates_vector, opt_unchoked, is_opt_unchoked, eligible_of,
}
use cplusplus_projects.BitTorrent.Optimistic.Enough.{is_ok-optimistic_un_choking_algorithm}
use cplusplus_projects.BitTorrent.Optimistic.Count.{optimistic_un_choking_algorithm-number}
use cplusplus_projects.BitTorrent.Choking.Bound.{is_served, choking_algorithm-le-downloaders}
use cplusplus_projects.BitTorrent.Choking.Fair.{IsFair, choking_algorithm-IsFair}
use cplusplus_projects.BitTorrent.Choking.Worst.{WorstChoked, choke_worst_downloader-WorstChoked}

abbrev block : ℕ → ℕ → RequestEntry
block i b = record {
  index = pos i;
  begin = pos b;
  length = pos 16;
  timestamp = pos 0;
  peer_id = some 7;
}

abbrev empty_queue : RequestState
empty_queue = record { request_vector = []; max_size = 2; check_size = false }

abbrev one_request : RequestState
one_request = record { request_vector = block 0 0 ∷ []; max_size = 2; check_size = true }

served-InOrder_example :
    served empty_queue (arrive (block 0 0) ∷ arrive (block 0 1) ∷ serve ∷ serve ∷ [])
    ≡ ok (
        served_in_order
          (waiting empty_queue)
          (arrive (block 0 0) ∷ arrive (block 0 1) ∷ serve ∷ serve ∷ []))
served-InOrder_example =
    served-InOrder empty_queue (arrive (block 0 0) ∷ arrive (block 0 1) ∷ serve ∷ serve ∷ []) refl

remove_request_lem_example :
    ((f : First (pos 0) (pos 0) one_request.request_vector) × (remove_request
          (pos 0)
          (pos 0)
          false
          one_request
        ≡ ok (record one_request { request_vector = f.before ++ f.behind })))
    ⊎ (NoneOf (pos 0) (pos 0) one_request.request_vector
        × (remove_request (pos 0) (pos 0) false one_request ≡ (
            if not false && ltb 0 (length one_request.request_vector)
            then fault Fault.request_not_found
            else ok one_request)))
remove_request_lem_example = remove_request_lem (pos 0) (pos 0) false one_request

add_request-room_example : add_request (block 0 1) one_request ≡ (
    if can_request_more one_request
    then ok (record one_request { request_vector = one_request.request_vector ++ block 0 1 ∷ [] })
    else fault Fault.queue_full)
add_request-room_example = add_request-room (block 0 1) one_request refl

abbrev two_requests : RequestState
two_requests = record {
  request_vector = block 0 0 ∷ block 0 1 ∷ [];
  max_size = 2;
  check_size = true;
}

two_requests_added : add_request (block 0 1) one_request ≡ ok two_requests
unfolding add_request checked
two_requests_added = refl

remove_request-add_request_example :
    remove_request (pos 0) (pos 1) false two_requests ≡ ok one_request
remove_request-add_request_example =
    remove_request-add_request (block 0 1) false one_request two_requests (refl, tt)
      two_requests_added

-- The second and the third piece of three.
abbrev told : BitField
told = from_message (pos 0) (pos 0) (false ∷ true ∷ true ∷ []) 4

from_message-Told_example :
    (put_in_message told ≡ false ∷ true ∷ true ∷ [])
    × (told.remaining_pieces ≡ pos (count_if not (false ∷ true ∷ true ∷ [])))
    × (told.remaining_blocks ≡ pos (count_if not (false ∷ true ∷ true ∷ []) * 4))
from_message-Told_example = from_message-Told (pos 0) (pos 0) (false ∷ true ∷ true ∷ []) 4

abbrev nothing_yet : BitField
nothing_yet = new_bit_field 3 4

abbrev frequencies : List PieceFreqEntry
frequencies =
    record { index = 0; frequency = 1 }
    ∷ record { index = 1; frequency = 2 }
    ∷ record { index = 2; frequency = 1 }
    ∷ []

abbrev last_of : ℕ → ℕ
last_of n = n - 1

last_of-lt : (n : ℕ) → 0 < n → last_of n < n
last_of-lt n h = omega arith

select_piece-Selected_example :
    (es : List PieceFreqEntry) × (candidates nothing_yet told false frequencies ≡ ok es)
    × All (Offer nothing_yet told false) es
    × (length es ≡ count_if (λ e. holds (is_candidate nothing_yet told false e)) frequencies)
    × Selected nothing_yet told false 1 es
        (select_piece last_of nothing_yet told false 1 frequencies)
unfolding new_bit_field new_pieces from_message
select_piece-Selected_example =
    select_piece-Selected last_of nothing_yet told false 1 frequencies last_of-lt (omega arith) refl
      (omega arith)

-- A connection to a peer that is interested and was never choked or unchoked.
abbrev connection : ℕ → ℤ → Bool → Handler
connection id rate choking = record {
  remote_peer_id = id;
  state = handshake_complete;
  is_seeder = false;
  am_choking = choking;
  am_interested = true;
  peer_choking = false;
  peer_interested = true;
  optimistically_unchoked = false;
  last_choke_unchoke = pos 0;
  download_rate = rate;
  upload_rate = pos 0;
  allowed_to_request = true;
  in_end_game = false;
  remote_bitfield = told;
  requests = one_request;
  choked_requests = empty_queue;
  incoming_requests = empty_queue;
  choked_incoming_requests = empty_queue;
}

-- Peer 0 is unchoked, and the faster peers 1 and 2 are choked.
abbrev connections : ℕ → Handler
connections t =
    if ltb t 1
    then connection 0 (pos 5) false
    else (if ltb t 2 then connection 1 (pos 9) true else connection 2 (pos 7) true)

abbrev client : Wire
client = record {
  state = normal;
  local_bitfield = nothing_yet;
  peers = 0 ∷ 1 ∷ 2 ∷ [];
  threads = connections;
  min_downloader_rate = pos 0;
  now = pos 100;
  chocking_interval = pos 10;
  downloaders = 2;
  opt_unchocked_peers = 1;
  enable_end_game_mode = true;
  end_game_requests = [];
  sent = [];
}

client-AllDistinct : AllDistinct client.peers
client-AllDistinct =
    ((λ e. omega (arith, e), (λ e. omega (arith, e), tt)), ((λ e. omega (arith, e), tt), (tt, tt)))

choking_algorithm-le-downloaders_example :
    count_if (is_served client (choking_algorithm client).threads) client.peers ≤ 2
unfolding ◌+ℤ◌
choking_algorithm-le-downloaders_example =
    choking_algorithm-le-downloaders client client-AllDistinct (refl, (refl, (refl, tt)))

choking_algorithm-IsFair_example :
    All (IsFair client (choking_algorithm client).threads client.peers) client.peers
choking_algorithm-IsFair_example = choking_algorithm-IsFair client client-AllDistinct

choke_worst_downloader-WorstChoked_example : WorstChoked client (choke_worst_downloader client)
choke_worst_downloader-WorstChoked_example = choke_worst_downloader-WorstChoked client (omega arith)

abbrev never_new : ℕ → Bool
never_new d = false

abbrev last_draw : ℕ → ℕ → ℕ
last_draw d n = last_of n

is_ok-optimistic_un_choking_algorithm_example :
    is_ok (optimistic_un_choking_algorithm never_new last_draw client) ≡ (
      (length (candidates_vector client) == 0)
      || leb 1 (length (candidates_vector client) + length (opt_unchoked client)))
is_ok-optimistic_un_choking_algorithm_example =
    is_ok-optimistic_un_choking_algorithm never_new last_draw client (λ d n h. last_of-lt n h)

-- Two peers are to be optimistically unchoked and there is one candidate: the algorithm fails.
abbrev lonely_client : Wire
lonely_client = record client { peers = 1 ∷ []; opt_unchocked_peers = 2 }

too_few : optimistic_un_choking_algorithm never_new last_draw lonely_client ≡ fault Fault.bad_index
unfolding optimistic_un_choking_algorithm rotate filter ◌+ℤ◌ unchoke_candidates choose_candidate
    take_out keep_opt_unchoked
too_few = refl

optimistic_un_choking_algorithm-number_example :
    (v : Wire) × (optimistic_un_choking_algorithm never_new last_draw client ≡ ok v)
    × (count_if (is_opt_unchoked (eligible_of client) v.threads) client.peers ≡ 1)
unfolding filter ◌+ℤ◌
optimistic_un_choking_algorithm-number_example =
    optimistic_un_choking_algorithm-number never_new last_draw client (λ d n h. last_of-lt n h)
      client-AllDistinct (omega arith) (omega arith)

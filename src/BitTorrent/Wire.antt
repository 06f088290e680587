-- ===== src/BitTorrent/Wire.antt =====
-- The state of BTPeerWireBase and of its connections, BTPeerWireClientHandlerBase, in BitTorrent/.
-- PeerState is the list of the connections' threads; a thread is a number, and what its pointer
-- leads to is `threads`. A rate, a float that is only compared, is an integer.
use cplusplus_projects.Common.{ℕ, Bool, true, false, List, [], ◌++◌, ℤ, ltb, ◌==◌, if◌then◌else◌}
use cplusplus_projects.BitTorrent.BitField.{BitField}
use cplusplus_projects.BitTorrent.Requests.{RequestEntry, RequestState}

-- PeerWireStates, in their order.
pub data PeerWireState : Type 0 where
  early_aborting active_aborting passive_aborting initial connected : PeerWireState
  active_handshake passive_handshake sent_handshake received_handshake : PeerWireState
  handshake_complete bitfield_complete anti_snubbing : PeerWireState

abbrev pub rank : PeerWireState → ℕ
rank early_aborting = 0
rank active_aborting = 1
rank passive_aborting = 2
rank initial = 3
rank connected = 4
rank active_handshake = 5
rank passive_handshake = 6
rank sent_handshake = 7
rank received_handshake = 8
rank handshake_complete = 9
rank bitfield_complete = 10
rank anti_snubbing = 11

-- The client's states.
pub data ClientState : Type 0 where
  normal endgame completed seeding seeder exiting : ClientState

abbrev pub client_rank : ClientState → ℕ
client_rank normal = 0
client_rank endgame = 1
client_rank completed = 2
client_rank seeding = 3
client_rank seeder = 4
client_rank exiting = 5

-- The fields of a connection that the choking and the requests read.
pub record Handler : Type 0 where
  pub remote_peer_id : ℕ
  pub state : PeerWireState
  pub is_seeder : Bool
  pub am_choking : Bool
  pub am_interested : Bool
  pub peer_choking : Bool
  pub peer_interested : Bool
  pub optimistically_unchoked : Bool
  pub last_choke_unchoke : ℤ
  pub download_rate : ℤ
  pub upload_rate : ℤ
  pub allowed_to_request : Bool
  pub in_end_game : Bool
  pub remote_bitfield : BitField
  pub requests : RequestState
  pub choked_requests : RequestState
  pub incoming_requests : RequestState
  pub choked_incoming_requests : RequestState

-- What a connection sends to its peer.
pub data Message : Type 0 where
  choke unchoke interested not_interested : Message
  have : ℕ → Message
  request cancel : ℤ → ℤ → Message

pub record Wire : Type 0 where
  pub state : ClientState
  pub local_bitfield : BitField
  pub peers : List ℕ
  pub threads : ℕ → Handler
  pub min_downloader_rate : ℤ
  pub now : ℤ
  pub chocking_interval : ℤ
  pub downloaders : ℕ
  pub opt_unchocked_peers : ℕ
  pub enable_end_game_mode : Bool
  pub end_game_requests : List RequestEntry
  pub sent : List (ℕ × Message)

-- A write through a thread's pointer.
abbrev pub set_thread : ℕ → Handler → (ℕ → Handler) → ℕ → Handler
set_thread t h threads u = if u == t then h else threads u

-- getDownloadRate: of a client that has the file, the upload rate.
abbrev pub get_download_rate : ClientState → Handler → ℤ
get_download_rate st h = if ltb (client_rank st) 2 then h.download_rate else h.upload_rate

-- clearPendingIncomingRequests. `chokedIncomingRequests` is not checked for its size.
abbrev pub clear_pending_incoming_requests : Handler → Handler
clear_pending_incoming_requests h = record h {
  choked_incoming_requests = record h.choked_incoming_requests {
    request_vector =
        h.choked_incoming_requests.request_vector ++ h.incoming_requests.request_vector;
  };
  incoming_requests = record h.incoming_requests { request_vector = [] };
}

-- timerExpired for UNCHOKE_TIMER.
abbrev pub unchoked : ℤ → Handler → Handler
unchoked now h = record (clear_pending_incoming_requests h) {
  am_choking = false;
  last_choke_unchoke = now;
}

-- timerExpired for CHOKE_TIMER.
abbrev pub choked : ℤ → Handler → Handler
choked now h = record (clear_pending_incoming_requests h) {
  last_choke_unchoke = now;
  am_choking = true;
  optimistically_unchoked = false;
}

-- ===== src/BitTorrent.antt =====
-- The BitTorrent simulator of "Multiaccess Information-centric P2P networks".
pub mod BitField
pub mod Requests
pub mod Remote
pub mod Pieces
pub mod Wire
pub mod Choking
pub mod Optimistic
pub mod Tests

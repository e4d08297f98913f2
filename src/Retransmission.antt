-- ===== src/Retransmission.antt =====
-- The retransmission side: requests of clients for messages that were sent before.
pub mod Feed
pub mod Setup
pub mod FeedPool
pub mod Recovery

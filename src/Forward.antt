-- ===== src/Forward.antt =====
-- The channel forwarder: modules/channel_forward.
pub mod Quota
pub mod Queue
pub mod Dedup
pub mod State
pub mod Schedule
pub mod Flush
pub mod Catchup
pub mod Inbox
pub mod Sync
pub mod Media
pub mod Filters
pub mod Delivery

-- ===== src/Persistent.antt =====
-- The persistent data stores: internal/datastore/persistent_data_store_wrapper.go,
-- data_store_status_poller.go and data_store_update_sink_impl.go.
pub mod Codec
pub mod RoundTrip
pub mod Poller
pub mod Cache
pub mod Keys
pub mod State
pub mod Wrapper
pub mod Reads
pub mod Entries
pub mod Infinite
pub mod Latest
pub mod Writes
pub mod Watch
pub mod Keeps
pub mod Polling
pub mod Failed

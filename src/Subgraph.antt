-- ===== src/Subgraph.antt =====
-- packages/nouns-subgraph/src: the handlers that index the events of the Nouns contracts.
pub mod Host
pub mod Schema
pub mod Store
pub mod Events
pub mod Token
pub mod Transfer
pub mod Quorum
pub mod Dao
pub mod Auctions
pub mod Index
pub mod Memory
mod Tests

-- ===== src/Webapp.antt =====
-- packages/nouns-webapp/src: the Redux slices and the hooks that read them.
pub mod Auction
pub mod Logs
pub mod Display
pub mod Activity
pub mod Proposals
pub mod Bid
pub mod Pagination
pub mod Votes
pub mod Seeds
pub mod CreateProposal
mod Tests
mod PageTests

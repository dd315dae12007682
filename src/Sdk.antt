-- ===== src/Sdk.antt =====
-- packages/nouns-sdk/src/image: the run-length encoding of the Nouns' artwork.
pub mod Hex
pub mod Image
pub mod Svg
pub mod Encoder
mod Tests

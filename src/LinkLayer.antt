-- ===== src/LinkLayer.antt =====
-- The link layer of IEC 60870-5-101 in src/iec60870/link_layer: the FT 1.2 frames, and the state
-- machines above them. A message to the serial line is the list of its bytes.
pub mod Frame
pub mod Parser
pub mod SecondaryUnbalanced
pub mod SecondaryBalanced
pub mod PrimaryBalanced
pub mod Codec
pub mod Stations
pub mod Exchange
pub mod Tests
pub mod StationTests
pub mod PrimaryUnbalanced
pub mod MasterTests

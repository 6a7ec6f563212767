-- ===== src/LinkLayer/Codec.antt =====
-- Frames that are sent are understood: the parsers read back what the frames were made from.
mod Control
mod Parts
mod Checked
mod Fixed
mod Checksum
mod Variable
mod Damage
pub use Control.*
pub use Parts.*
pub use Checked.*
pub use Fixed.*
pub use Checksum.*
pub use Variable.*
pub use Damage.*

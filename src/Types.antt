-- ===== src/Types.antt =====
-- zentra-types (crates/zentra-types/src): constants, amounts, hashes, addresses, lanes and
-- transaction types. A `Hash` is its 32 bytes read as one big-endian number, so that the derived
-- order of the byte arrays is the order of the numbers; an `Amount` is its number of zents.
mod Constants
pub mod Amount
mod Addresses
mod TxType
unfoldable pub use Constants.*
pub use Addresses.*
unfoldable pub use TxType.*

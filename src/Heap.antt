-- ===== src/Heap.antt =====
-- crates/gc-core/src/heap.rs: the byte arena. `Arena` has bytes and words, `Header` and `Payload`
-- the accessors, `Place` what writes whole blocks; the other children hold the proofs.
mod Arena
mod Header
mod Payload
mod Place
pub mod Words
pub mod Views
pub mod Flags
pub mod Sizes
pub mod Blocks
pub mod Emplace
pub mod Moves
pub mod Chain
unfoldable pub use Arena.*
unfoldable pub use Header.*
unfoldable pub use Payload.*
unfoldable pub use Place.*

-- ===== src/Verify.antt =====
-- crates/gc-core/src/verify.rs: the comparison of a heap with the model. `Reports` has what is
-- reported, `Paths` the search for a path, `Queue` the loop over the heap, `Whole` all of it.
mod Reports
mod Paths
mod Queue
mod Whole
pub mod Ends
unfoldable pub use Reports.*
unfoldable pub use Paths.*
unfoldable pub use Queue.*
unfoldable pub use Whole.*

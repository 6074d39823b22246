-- ===== src/Tests.antt =====
-- Runs of the model at concrete inputs, and the theorems at inputs that meet their hypotheses.
mod HeapTests
mod GenerationalTests
mod SemiSpaceTests
mod CycleCollectorTests
mod ScanBlackTests
mod VerifyTests
mod MutatorTests
mod MarkCompactTests
mod SpaceTests
mod ModelTests
mod RefCountTests
mod AllocatorTests
mod MarkSweepTests
mod IncrementalTests

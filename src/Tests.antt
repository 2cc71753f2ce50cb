-- ===== src/Tests.antt =====
-- Runs of the models at concrete inputs, and the theorems at them.
pub mod PatternTests
pub mod SlotsTests
pub mod RouterTests
pub mod StoreTests
pub mod ToolTests
pub mod BenchmarkTests
pub mod MemoryTests

-- ===== src/Tests.antt =====
-- Tests of the definitions at concrete inputs, and the theorems at inputs that meet their
-- hypotheses.
pub mod Sample
mod ConfigTests
mod HttpTests
mod PoolTests
mod ServerTests
mod CheckDbTests
mod LogTests
mod MainTests
mod LifecycleTests
mod RunTests

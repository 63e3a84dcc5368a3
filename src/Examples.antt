-- ===== src/Examples.antt =====
-- The theorems at concrete inputs: a machine with two model servers and a shell, and a small arithmetic
-- in place of C's double.
pub mod Fixtures
pub mod Documents
pub mod Settings
pub mod Models
pub mod Screens
pub mod Table
pub mod Metrics
pub mod Keys
pub mod Programs
pub mod Drawn

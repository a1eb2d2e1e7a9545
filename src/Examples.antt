-- ===== src/Examples.antt =====
-- Concrete packages, on which the theorems are applied and the program is run.
pub mod Packages
pub mod Arithmetic
pub mod Grid
pub mod Quoting
pub mod Owners
pub mod Collecting
pub mod Routing
pub mod Rounds
pub mod Trading
pub mod Depositing

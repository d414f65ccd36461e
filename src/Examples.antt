-- ===== src/Examples.antt =====
-- The theorems at concrete values, and tests of the definitions.
pub mod Disks
pub mod Directories
pub mod Terminals
pub mod Files
pub mod Editors
pub mod Kernels
pub mod Programs
pub mod Shells

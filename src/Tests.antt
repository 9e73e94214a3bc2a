-- ===== src/Tests.antt =====
-- Runs of the code on small inputs, and the theorems at concrete arguments.
pub mod Data
pub mod Notation
pub mod Nodes
pub mod Formatting
pub mod Logging
pub mod Configuring
pub mod Variables
pub mod Fibers
pub mod Threads
pub mod Yaml
pub mod Containers

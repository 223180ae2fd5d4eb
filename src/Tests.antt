-- ===== src/Tests.antt =====
-- Runs of the definitions at concrete inputs, and the theorems applied at them.
mod Text
mod Variables
mod Arguments
mod Interface
mod Packages
mod Runs
mod Platform
mod Hosts
mod Memory

-- ===== src/Examples.antt =====
-- Concrete runs: tests of the model on small inputs, and the theorems at concrete nodes.
mod Nodes
mod Links
mod Lines
mod Outputs
mod Merging
mod Logins
mod Texts
mod World
mod Requests
mod Accounts
mod Vmess
mod Migration

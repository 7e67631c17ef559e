-- ===== src/Tests.antt =====
-- Concrete worlds, and the theorems applied to runs of the code on them.
mod World
mod Assumptions
mod Runs
mod Transaction
mod Power
mod Boards
mod Executor
mod Verifier
mod Contract
mod Linux
mod Monitor
mod Robin
mod Deployment

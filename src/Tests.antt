-- ===== src/Tests.antt =====
-- Runs of the operations on small inputs.
mod Memory
mod Walks
mod Files
mod Text
mod Processes
mod Searches
mod Status
mod Calls
mod Wmic
mod Views
mod Windows
mod Examples
mod Moving
mod Faults
mod Names
